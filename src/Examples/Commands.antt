-- ===== src/Examples/Commands.antt =====
-- What the calls of the programs put into the command buffers.
use wolk_connect_task.Prelude.{
  Text, ℕ, ◌≡◌, refl, Bool, true, false, sym, ap, ◌∙◌, List, [], ◌∷◌, ◌++◌, codes, append_assoc,
  append-nil, nat_eq,
}
use wolk_connect_task.Data.{DataProtocol}
use wolk_connect_task.Wolk.{
  Surroundings, Wolk, Command, DataCall, connecting, disconnecting, publishing, calling, connect,
  try_connect, disconnect, publish,
}
use wolk_connect_task.Wolk.Single.{device_key}
use wolk_connect_task.Wolk.Single
use wolk_connect_task.Wolk.Multi
use wolk_connect_task.Builder.{
  wolk_builder, with_host, with_file_transfer, with_platform_status, with_error_protocol,
  with_registration,
}
use wolk_connect_task.Builder.Services.{new_file_management_service, new_wolk}
use wolk_connect_task.Builder.Build.{
  Built, built, build, build_as, build_with, build_over, build_wolk_multi,
}
use wolk_connect_task.Examples.Pull.{pull_turn}
use wolk_connect_task.Examples.Subdevices.{
  device_one, first_calls, build_subdevices, subdevices_builder,
}

-- The commands of one exchange, in order; `off` is the text of the reading.
abbrev pub exchange : Text → Text → ℕ → List Command
exchange off key now =
    connecting true
    ∷ (calling (DataCall.pull_feed_values key)
        ∷ (calling (DataCall.pull_parameters key)
            ∷ (calling (DataCall.add_string_reading key (codes "SW") off now)
                ∷ (publishing ∷ (disconnecting ∷ [])))))

abbrev pub exchanges : Text → Text → List ℕ → List Command
exchanges off key [] = []
exchanges off key (now ∷ times) = exchange off key now ++ exchanges off key times

appended_six :
    (cs : List Command) (a b c d e f : Command)
    → (((((cs ++ a ∷ []) ++ b ∷ []) ++ c ∷ []) ++ d ∷ []) ++ e ∷ []) ++ f ∷ []
      ≡ cs ++ a ∷ (b ∷ (c ∷ (d ∷ (e ∷ (f ∷ [])))))
appended_six cs a b c d e f = simp (append_assoc)

module _ {Wire P Fs Info : Type 0} (bool_text : Bool → Text) where
  abbrev pub pull_turns : List ℕ → Wolk Wire P Fs Info → Wolk Wire P Fs Info
  pull_turns [] w = w
  pull_turns (now ∷ times) w = pull_turns times (pull_turn bool_text now w)

  pull_turn-lem :
      (now : ℕ) (w : Wolk Wire P Fs Info)
      → pull_turn bool_text now w ≡ record w {
        command_buffer = w.command_buffer ++ exchange (bool_text false) (device_key w) now;
      }
  unfolding pull_turn connect try_connect disconnect publish Single.add_string_reading
      Single.pull_feed_values Single.pull_parameters native.Mathlib.Decide.ℕ_discrete
  pull_turn-lem now w =
      ap (λ cs. record w { command_buffer = cs }) (appended_six w.command_buffer _ _ _ _ _ _)

  -- The endless loop of the pulling program gives its six commands again and again: it connects, asks
  -- for the feeds and the parameters, sends a reading, and disconnects.
  pull_turns-exchanges :
      (times : List ℕ) (w : Wolk Wire P Fs Info)
      → (pull_turns times w).command_buffer
        ≡ w.command_buffer ++ exchanges (bool_text false) (device_key w) times
  pull_turns-exchanges [] w = sym (append-nil w.command_buffer)
  pull_turns-exchanges (now ∷ times) w =
      let t : Wolk Wire P Fs Info = record w {
        command_buffer = w.command_buffer ++ exchange (bool_text false) (device_key w) now;
      } in
      rw (pull_turns, pull_turn-lem now w)
        (pull_turns-exchanges times t
          ∙ append_assoc w.command_buffer (exchange (bool_text false) (device_key w) now)
              (exchanges (bool_text false) (device_key w) times))

module _ {Wire P Fs D Info : Type 0} (Status : Type 0) (e : Surroundings Wire P Fs D Info) where
  -- The program for several devices builds its object without any device, so the requests for the
  -- feeds and the parameters of the second device are dropped: only the attempt to connect, the reading
  -- of the first device and the publication wait.
  first_calls-dropped :
      (store : P) (protocol : DataProtocol Wire) (disk : Fs) (listener now : ℕ)
      (pi_reference pi : Text)
      → (b : Built Wire P Fs D Info Status) × (build_subdevices Status e store protocol disk
            listener
          ≡ built b)
        × ((b.wolk.devices ≡ [])
            × ((first_calls now pi_reference pi b.wolk).command_buffer
                ≡ connecting true
                  ∷ (calling (DataCall.add_string_reading device_one.key pi_reference pi now)
                      ∷ (publishing ∷ []))))
  unfolding build_subdevices subdevices_builder wolk_builder with_host with_file_transfer
      with_platform_status with_error_protocol with_registration build_wolk_multi build build_as
      build_over build_with new_file_management_service new_wolk first_calls connect try_connect
      publish Multi.add_string_reading Multi.pull_feed_values Multi.pull_parameters
      Multi.contains_key wolk_connect_task.Builder.Build.has_empty_key
      native.Mathlib.Decide.ℕ_discrete
  first_calls-dropped store protocol disk listener now pi_reference pi = (_, refl, (refl, refl))
