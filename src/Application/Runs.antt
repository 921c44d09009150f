-- ===== src/Application/Runs.antt =====
-- Turns of the loop and of the timers.
use wolk_connect_task.Prelude.{
  Text, ℕ, zero, suc, ◌+◌, ◌<◌, ◌≡◌, ◌↔◌, refl, sym, ap, ◌∙◌, ltb, Bool, true, false, not, ◌&&◌,
  ◌||◌, Option, none, some, List, [], ◌∷◌, ◌++◌, append_assoc, append-nil, length, is_empty,
  get_elem?, codes, text_eq, ◌==◌, arith, Bool-cases, Option-cases, is_some, inl, inr,
  if◌then◌else◌,
}
use wolk_connect_task.Wolk.{Wolk, Command, DataCall, calling, publishing, publish}
use wolk_connect_task.Wolk.Single.{add_string_reading, device_key, or_now}
use wolk_connect_task.Application.{
  Doubles, Application, maximum_from, get_maximum_temperature, publish_maximum, add_temperature,
  print_temperatures, publish_temperatures, loop_body,
}

-- The addresses among the readings that wait.
abbrev pub address_of : Command → List Text
address_of (calling (DataCall.add_string_reading key reference value rtc)) =
    if reference == codes "IP_ADD" then value ∷ [] else []
address_of c = []

unfoldable pub addresses : List Command → List Text
addresses [] = []
addresses (c ∷ cs) = address_of c ++ addresses cs

-- The address before each change.
unfoldable pub replaced : Text → List Text → List Text
replaced ip [] = []
replaced ip (new_ip ∷ ips) =
    let same = replaced ip ips in
    let other = replaced new_ip ips in if ip == new_ip then same else ip ∷ other

module _ {T : Type 0} (d : Doubles T) where
  -- Every temperature is the index of one.
  unfoldable pub are_indices : List T → ℕ → Bool
  are_indices [] n = true
  are_indices (t ∷ ts) n =
      let rest = are_indices ts n in elim (d.truncate t) [ none ↦ false | some i ↦ ltb i n && rest ]

  abbrev pub is_readable : List T → Bool
  is_readable ts = not (is_empty ts) && are_indices ts (length ts)

  get_elem?-is_some : (ts : List T) (i : ℕ) → is_some (get_elem? ts i) ≡ ltb i (length ts)
  get_elem?-is_some [] i = ground arith
  get_elem?-is_some (t ∷ ts) zero = ground arith
  get_elem?-is_some (t ∷ ts) (suc i) = ground (arith, get_elem?-is_some ts i)

  maximum_from-is_some :
      (ts rest : List T) (m : T) → is_some (maximum_from d ts rest m) ≡ are_indices rest (length ts)
  unfolding maximum_from are_indices
  maximum_from-is_some ts [] m = refl
  maximum_from-is_some ts (t ∷ rest) m = elim (Option-cases (d.truncate t)) [
    | inl no_index ↦ ground arith
    | inr (i, index) ↦ elim (Option-cases (get_elem? ts i)) [
      | inl missing ↦ ground (arith, get_elem?-is_some ts i)
      | inr (v, found) ↦ ground (
        arith,
        get_elem?-is_some ts i,
        maximum_from-is_some ts rest (if d.greater v m then v else m),
      )
    ]
  ]

  get_maximum-is_some : (ts : List T) → is_some (get_maximum_temperature d ts) ≡ is_readable ts
  unfolding get_maximum_temperature
  get_maximum-is_some [] = refl
  get_maximum-is_some (t ∷ ts) = maximum_from-is_some (t ∷ ts) (t ∷ ts) t

  abbrev pub AllReadable : List (ℕ × Text × List T) → Type 0
  AllReadable [] = Unit {0}
  AllReadable ((now, ip, temperatures) ∷ turns) =
      (is_readable temperatures ≡ true) × AllReadable turns

abbrev pub read_addresses : {T : Type 0} → List (ℕ × Text × List T) → List Text
read_addresses [] = []
read_addresses ((now, ip, temperatures) ∷ turns) = ip ∷ read_addresses turns

addresses-append : (xs ys : List Command) → addresses (xs ++ ys) ≡ addresses xs ++ addresses ys
unfolding addresses
addresses-append [] ys = refl
addresses-append (c ∷ xs) ys =
    ap (◌++◌ (address_of c)) (addresses-append xs ys)
    ∙ sym (append_assoc (address_of c) (addresses xs) (addresses ys))

addresses-publishing :
    (buffer : List Command) → addresses (buffer ++ publishing ∷ []) ≡ addresses buffer
unfolding addresses
addresses-publishing buffer =
    addresses-append buffer (publishing ∷ []) ∙ append-nil (addresses buffer)

addresses-adding :
    (buffer : List Command) (key ip : Text) (rtc : ℕ)
    → addresses (buffer ++ calling (DataCall.add_string_reading key (codes "IP_ADD") ip rtc) ∷ [])
      ≡ addresses buffer ++ ip ∷ []
unfolding addresses wolk_connect_task.Prelude.text_dec native.Mathlib.Decide.ℕ_discrete
addresses-adding buffer key ip rtc =
    addresses-append buffer (calling (DataCall.add_string_reading key (codes "IP_ADD") ip rtc) ∷ [])

module _ {T L Wire P Fs Info : Type 0} (d : Doubles T) where
  -- The timers of the temperatures: the one of the cores always reads past the end of the vector that
  -- it has just cleared; the one of the maximum does so exactly when no maximum was collected since it
  -- ran last, or one of those collected, taken for an index, is not less than their number.
  pub publish_temperatures-undefined :
      (now : ℕ) (a : Application T L (Wolk Wire P Fs Info))
      → (publish_temperatures d now a ≡ none)
        × (is_some (publish_maximum d now a) ≡ is_readable d a.temperatures_max)
  unfolding publish_temperatures add_temperature print_temperatures publish_maximum
  publish_temperatures-undefined now a = ground (arith, get_maximum-is_some d a.temperatures_max)

  -- Turns of the loop, each at its time, with the address and the temperatures that were read.
  unfoldable pub run_loop :
      List (ℕ × Text × List T)
      → Application T L (Wolk Wire P Fs Info)
      → Option (Application T L (Wolk Wire P Fs Info))
  run_loop [] a = some a
  run_loop ((now, ip, temperatures) ∷ turns) a = elim (loop_body d now ip temperatures a) [
    | none ↦ none
    | some b ↦ run_loop turns b
  ]

  loop_body-address :
      (now : ℕ) (ip : Text) (ts : List T) (a : Application T L (Wolk Wire P Fs Info))
      → a.device_ip_address ≡ a.ip
      → is_readable d ts ≡ true
      → (t : Application T L (Wolk Wire P Fs Info)) × (loop_body d now ip ts a ≡ some t)
        × (t.device_ip_address ≡ ip)
        × (t.ip ≡ ip)
        × (addresses t.wolk.command_buffer
            ≡ addresses a.wolk.command_buffer ++ (if a.ip == ip then [] else a.ip ∷ []))
  unfolding loop_body add_string_reading publish
  loop_body-address now ip ts a same readable = elim (Option-cases (get_maximum_temperature d ts)) [
    | inl missing ↦ ground (arith, get_maximum-is_some d ts)
    | inr (m, found) ↦
        let buffer = a.wolk.command_buffer in
        let b : Application T L (Wolk Wire P Fs Info) = record a {
          temperatures = ts;
          temperatures_max = a.temperatures_max ++ m ∷ [];
        } in
        elim (Bool-cases (a.ip == ip)) [
          | inl old ↦
              let t : Application T L (Wolk Wire P Fs Info) = record b { wolk = publish a.wolk } in
              (
                t,
                ground arith,
                ground arith,
                ground arith,
                ground (arith, addresses-publishing buffer, append-nil (addresses buffer)),
              )
          | inr new ↦
              let first = publish (add_string_reading now (codes "IP_ADD") a.ip 0 a.wolk) in
              let t : Application T L (Wolk Wire P Fs Info) = record b {
                wolk = publish first;
                ip = ip;
                device_ip_address = ip;
              } in
              let added =
                addresses-publishing first.command_buffer
                ∙ addresses-publishing
                    (add_string_reading now (codes "IP_ADD") a.ip 0 a.wolk).command_buffer
                ∙ addresses-adding buffer (device_key a.wolk) a.ip (or_now now 0) in
              (t, ground arith, refl, refl, added ∙ ground arith)
        ]
  ]

  -- The addresses that the loop adds while it runs are those that were replaced: at each change the
  -- address before it, never the new one. The loop goes on as long as the temperatures can be taken for
  -- indices.
  pub run_loop-replaced :
      (turns : List (ℕ × Text × List T)) (a : Application T L (Wolk Wire P Fs Info))
      → a.device_ip_address ≡ a.ip
      → AllReadable d turns
      → (t : Application T L (Wolk Wire P Fs Info)) × (run_loop turns a ≡ some t)
        × (addresses t.wolk.command_buffer
            ≡ addresses a.wolk.command_buffer ++ replaced a.ip (read_addresses turns))
  unfolding run_loop replaced
  run_loop-replaced [] a same readable =
      (a, refl, ground (arith, append-nil (addresses a.wolk.command_buffer)))
  run_loop-replaced ((now, ip, ts) ∷ turns) a same readable =
      let (t, done, device, current, added) = loop_body-address now ip ts a same readable.0 in
      let (u, ran, rest) = run_loop-replaced turns t (device ∙ sym current) readable.1 in
      (
        u,
        ground arith,
        ground (
          arith,
          append_assoc (addresses a.wolk.command_buffer) (a.ip ∷ [])
              (replaced ip (read_addresses turns)),
          append-nil (addresses a.wolk.command_buffer),
        ),
      )
