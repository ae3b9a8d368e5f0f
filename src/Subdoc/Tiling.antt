-- ===== src/Subdoc/Tiling.antt =====
-- When a packet on several paths is valid: its specs fill the rest of the body exactly.
use memcached.Common.{
  ℕ, zero, suc, ◌+◌, ◌≤◌, ◌<◌, ◌≡◌, refl, Bool, false, List, [], ◌∷◌, ltb, length, All, arith, ◌≢◌,
  Bool-cases, ◌∙◌, ◌⊎◌, inr, ap, sym, ◌↔◌, inl, ltb→lt,
}
use memcached.Protocol.{success, Status, Packet, ntohs, ntohl, einval}
use memcached.Subdoc.Traits.{SubdocMultiCmdTraits, multi_max_paths}
use memcached.Subdoc.Multi.{
  Spec, read_spec, spec_len, check_spec, is_valid_multipath_spec, scanned, scan_specs,
  subdoc_multi_validator, refused, multi_static_checks, multi_verdict, Scan,
}

-- The specs stand one behind the other from `at` up to `end`.
abbrev pub Tiles : Bool → (ℕ → ℕ) → ℕ → ℕ → List Spec → Type 0
Tiles mutator body at end [] = at ≡ end
Tiles mutator body at end (spec ∷ specs) =
    (spec ≡ read_spec mutator body at)
    × (at < end)
    × Tiles mutator body (at + spec_len spec) end specs

abbrev pub Checked : Bool → List Spec → Type 0
Checked mutator = All (λ spec. check_spec mutator spec ≡ success)

-- A request's specs: at most `max`, each one valid, and together the body from `at` on.
pub record ValidSpecs (mutator : Bool) (body : ℕ → ℕ) (at end max : ℕ) : Type 0 where
  pub specs : List Spec
  pub tiled : Tiles mutator body at end specs
  pub checked : Checked mutator specs
  pub bounded : length specs ≤ max

success-dec : (status : Status) → (status ≡ success) ⊎ (status ≢ success)
success-dec success = inl refl
success-dec _ = inr (λ e. cc)

einval≢success : einval ≢ success
einval≢success e = cc

status_of : Scan → Status
status_of (refused status) = status
status_of (scanned n at) = success

refused≢scanned : {status : Status} {n m : ℕ} → refused status ≢ scanned n m
refused≢scanned e = cc

module _ (traits : SubdocMultiCmdTraits) (body : ℕ → ℕ) (bodylen : ℕ) where
  -- One round, by what it decides on.
  scan_done :
      (rounds path_index at : ℕ)
      → ltb at bodylen ≡ false
      → scan_specs rounds traits body bodylen path_index at ≡ scanned path_index at
  unfolding scan_specs
  scan_done zero path_index at h = refl
  scan_done (suc rounds) path_index at h = rw h

  scan_next :
      (rounds path_index at : ℕ)
      → at < bodylen
      → check_spec traits.is_mutator (read_spec traits.is_mutator body at) ≡ success
      → scan_specs (suc rounds) traits body bodylen path_index at
        ≡ scan_specs rounds traits body bodylen
            (path_index + 1)
            (at + spec_len (read_spec traits.is_mutator body at))
  unfolding scan_specs is_valid_multipath_spec
  scan_next rounds path_index at h ok = ground arith

  scan_refused :
      (rounds path_index at : ℕ)
      → at < bodylen
      → check_spec traits.is_mutator (read_spec traits.is_mutator body at) ≢ success
      → scan_specs (suc rounds) traits body bodylen path_index at
        ≡ refused (check_spec traits.is_mutator (read_spec traits.is_mutator body at))
  unfolding scan_specs is_valid_multipath_spec
  scan_refused rounds path_index at h bad = ground arith

  -- What a scan that reaches the end of the body has read.
  scan_sound :
      (rounds path_index at index' at' : ℕ)
      → scan_specs rounds traits body bodylen path_index at ≡ scanned index' at'
      → at' ≡ bodylen
      → (v : ValidSpecs traits.is_mutator body at bodylen rounds) × (index'
          ≡ path_index + length v.specs)
  unfolding scan_specs
  scan_sound zero path_index at index' at' e done =
      (record { specs = []; tiled = cc; checked = tt; bounded = omega arith }, ground arith)
  scan_sound (suc rounds) path_index at index' at' e done = elim (Bool-cases (ltb at bodylen)) [
    | inr stop ↦
        let e' : scanned path_index at ≡ scanned index' at' =
          sym (scan_done (suc rounds) path_index at stop) ∙ e in
        (record { specs = []; tiled = cc; checked = tt; bounded = omega arith }, ground arith)
    | inl more ↦
        elim (success-dec (check_spec traits.is_mutator (read_spec traits.is_mutator body at))) [
          | inr bad ↦
              absurd (
                refused≢scanned (sym (scan_refused rounds path_index at (ltb→lt _ _ more) bad) ∙ e))
          | inl ok ↦
              let spec = read_spec traits.is_mutator body at in
              let (v, count) =
                scan_sound rounds (path_index + 1) (at + spec_len spec) index' at'
                  (sym (scan_next rounds path_index at (ltb→lt _ _ more) ok) ∙ e) done in
              (
                record {
                  specs = spec ∷ v.specs;
                  tiled = (refl, ltb→lt _ _ more, v.tiled);
                  checked = (ok, v.checked);
                  bounded = omega (arith, v.bounded);
                },
                omega (arith, count),
              )
        ]
  ]

  -- A scan over valid specs that fill the body reads them all.
  scan_complete :
      (rounds path_index at : ℕ) (specs : List Spec)
      → length specs ≤ rounds
      → Tiles traits.is_mutator body at bodylen specs
      → Checked traits.is_mutator specs
      → scan_specs rounds traits body bodylen path_index at
        ≡ scanned (path_index + length specs) bodylen
  scan_complete rounds path_index at [] le tiled checked =
      scan_done rounds path_index at (ground arith) ∙ ground arith
  scan_complete zero path_index at (spec ∷ specs) le tiled checked = absurd (omega arith)
  scan_complete (suc rounds) path_index at (spec ∷ specs) le (e, lt, tiled) (ok, checked) =
      let ok' : check_spec traits.is_mutator (read_spec traits.is_mutator body at) ≡ success =
        rw (← e) ok in
      let tiled' : Tiles traits.is_mutator body
          (at + spec_len (read_spec traits.is_mutator body at)) bodylen specs =
        rw (← e) tiled in
      scan_next rounds path_index at lt ok'
      ∙ scan_complete rounds (path_index + 1) _ specs (omega arith) tiled' checked
      ∙ ap (λ (n : ℕ). scanned n bodylen) (omega arith)

-- A scan stops early only with an error.
scan_refused_status :
    (traits : SubdocMultiCmdTraits) (body : ℕ → ℕ) (bodylen rounds path_index at : ℕ)
    {status : Status}
    → scan_specs rounds traits body bodylen path_index at ≡ refused status
    → status ≢ success
unfolding scan_specs status_of
scan_refused_status traits body bodylen zero path_index at e ok = cc
scan_refused_status traits body bodylen (suc rounds) path_index at e ok =
    elim (Bool-cases (ltb at bodylen)) [
      | inr stop ↦
          refused≢scanned (sym e ∙ scan_done traits body bodylen (suc rounds) path_index at stop)
      | inl more ↦
          let lt = ltb→lt _ _ more in
          elim (success-dec (check_spec traits.is_mutator (read_spec traits.is_mutator body at))) [
            | inr bad ↦ bad (
                ap status_of
                  (sym (scan_refused traits body bodylen rounds path_index at lt bad) ∙ e)
                ∙ ok)
            | inl good ↦
                scan_refused_status traits body bodylen rounds (path_index + 1) _
                  (sym (scan_next traits body bodylen rounds path_index at lt good) ∙ e) ok
          ]
    ]

verdict_success :
    (bodylen : ℕ) (scan : Scan)
    → ((status : Status) → scan ≡ refused status → status ≢ success)
    → multi_verdict bodylen scan ≡ success
    → (n : ℕ) × (scan ≡ scanned n bodylen) × (1 ≤ n)
unfolding multi_verdict
verdict_success bodylen (refused status) h e = absurd (h status refl e)
verdict_success bodylen (scanned n at) h e = (n, ground arith, ground arith)

verdict_scanned : (bodylen n : ℕ) → 1 ≤ n → multi_verdict bodylen (scanned n bodylen) ≡ success
unfolding multi_verdict
verdict_scanned bodylen n h = ground arith

passed_checks :
    (traits : SubdocMultiCmdTraits) (req : Packet)
    → subdoc_multi_validator traits req ≡ success
    → (multi_static_checks traits req ≡ false)
      × (multi_verdict (ntohl req.bodylen) (
            scan_specs multi_max_paths traits req.body
              (ntohl req.bodylen)
              0
              (ntohs req.keylen + req.extlen))
          ≡ success)
unfolding subdoc_multi_validator
passed_checks traits req h = elim (Bool-cases (multi_static_checks traits req)) [
  | inl bad ↦ absurd (einval≢success (rw bad at h))
  | inr ok ↦ (ok, rw ok at h)
]

after_checks :
    (traits : SubdocMultiCmdTraits) (req : Packet)
    → multi_static_checks traits req ≡ false
    → subdoc_multi_validator traits req
      ≡ multi_verdict (ntohl req.bodylen) (
          scan_specs multi_max_paths traits req.body
            (ntohl req.bodylen)
            0
            (ntohs req.keylen + req.extlen))
unfolding subdoc_multi_validator
after_checks traits req ok = rw ok

-- subdoc_multi_validator accepts a packet exactly when its static checks pass and between 1 and 16
-- specs, each valid on its own, stand one behind the other from the end of the key to the end of the
-- body.
pub subdoc_multi_validator_iff :
    (traits : SubdocMultiCmdTraits) (req : Packet)
    → (subdoc_multi_validator traits req ≡ success) ↔ (
        (multi_static_checks traits req ≡ false)
        × ((v : ValidSpecs traits.is_mutator req.body
              (ntohs req.keylen + req.extlen)
              (ntohl req.bodylen)
              multi_max_paths)
            × (1 ≤ length v.specs)))
subdoc_multi_validator_iff traits req = (sound, complete)
  where
    bodylen : ℕ
    bodylen = ntohl req.bodylen

    start : ℕ
    start = ntohs req.keylen + req.extlen

    sound :
        subdoc_multi_validator traits req ≡ success
        → (multi_static_checks traits req ≡ false)
          × ((v : ValidSpecs traits.is_mutator req.body start bodylen multi_max_paths) × (1
                ≤ length v.specs))
    sound h =
        let (static, verdict) = passed_checks traits req h in
        let (n, e, pos) =
          verdict_success bodylen (scan_specs multi_max_paths traits req.body bodylen 0 start)
            (λ status e. scan_refused_status traits req.body bodylen multi_max_paths 0 start e)
            verdict in
        let (v, count) =
          scan_sound traits req.body bodylen multi_max_paths 0 start n bodylen e refl in
        (static, (v, omega (arith, count)))

    complete :
        (multi_static_checks traits req ≡ false)
          × ((v : ValidSpecs traits.is_mutator req.body start bodylen multi_max_paths) × (1
                ≤ length v.specs))
        → subdoc_multi_validator traits req ≡ success
    complete (static, (v, pos)) =
        after_checks traits req static
        ∙ ap (multi_verdict bodylen) (
            scan_complete traits req.body bodylen multi_max_paths 0 start v.specs v.bounded v.tiled
              v.checked)
        ∙ verdict_scanned bodylen (0 + length v.specs) (omega arith)
