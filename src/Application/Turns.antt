-- ===== src/Application/Turns.antt =====
-- The loop of application.cpp over what its two readers return.
use wolk_connect_task.Prelude.{ℕ, ◌<◌, ◌≡◌, none, Option, ◌>>=◌, [], length, arith}
use wolk_connect_task.Wolk.{Wolk}
use wolk_connect_task.Readers.{Sensors, Network, read_chips, read_temperatures, retrieve_ip_address}
use wolk_connect_task.Application.{Doubles, Application, get_maximum_temperature, loop_body}

module _ {T L Wire P Fs Info : Type 0} (d : Doubles T) where
  -- `none` is undefined, or the end of the program.
  unfoldable pub turn :
      ℕ
      → Network
      → Sensors T
      → Application T L (Wolk Wire P Fs Info)
      → Option (Application T L (Wolk Wire P Fs Info))
  turn now network sensors a = do
    ip ← retrieve_ip_address network
    temperatures ← read_temperatures sensors
    loop_body d now ip temperatures a

  -- With fewer than four temperatures the loop reads the first element of an empty vector.
  turn-undefined :
      (now : ℕ) (network : Network) (sensors : Sensors T)
      (a : Application T L (Wolk Wire P Fs Info))
      → length (read_chips sensors.chips []) < 4
      → turn now network sensors a ≡ none
  unfolding turn read_temperatures loop_body get_maximum_temperature
  turn-undefined now network sensors a few = ground arith
