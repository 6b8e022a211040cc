-- ===== src/Compiler/Overlay/Template.antt =====
-- What a template means, as a relation, and that `expand_overlay_template` computes it.
use mathlib.Core.List.{append_assoc, append-nil}
use caml.Base.{
  ℕ, ◌≡◌, ◌≢◌, refl, ap, ◌∙◌, ◌↔◌, inl, inr, false, some, [], ◌∷◌, ◌++◌, ok, arith, All, >>=-eq-ok,
  ok_or, ok_or-eq-ok, ◌==◌, Bool-cases,
}
use caml.Compiler.Overlay.{
  Variables, get, Mode, outside, inside, Expansion, substitute, expand_char, expand_from,
  expand_overlay_template,
}
use caml.Text.{Text, trim}

-- A character outside a placeholder stands for itself; `{key}` stands for the variable whose name
-- is the key without the space around it. A key may hold any character but `}`.
pub data Expands (vars : Variables) : Text → Text → Type 0 where
  done : Expands vars [] []
  char :
      {c : ℕ} {t o : Text} → c ≢ b'{' → c ≢ b'}' → Expands vars t o → Expands vars (c ∷ t) (c ∷ o)
  variable :
      (key value t o : Text)
      → All (λ c. c ≢ b'}') key
      → get (trim key) vars ≡ some value
      → Expands vars t o
      → Expands vars (b'{' ∷ (key ++ b'}' ∷ t)) (value ++ o)

module _ (id : Text) (vars : Variables) where
  -- The rest of a template, from each mode: `out` is the whole output.
  abbrev Meaning : Text → Mode → Text → Text → Type 0
  Meaning output outside t out = (o : Text) × (out ≡ output ++ o) × Expands vars t o
  Meaning output (inside key) t out =
      (more : Text) × (value : Text) × (rest : Text) × (o : Text) × (t ≡ more ++ b'}' ∷ rest)
      × All (λ c. c ≢ b'}') more
      × (get (trim (key ++ more)) vars ≡ some value)
      × (out ≡ output ++ (value ++ o))
      × Expands vars rest o

  step_outside :
      (output : Text) (c : ℕ) (t out : Text)
      → c ≢ b'{'
      → c ≢ b'}'
      → Meaning (output ++ c ∷ []) outside t out
      → Meaning output outside (c ∷ t) out
  step_outside output c t out ho hc (o, e, x) =
      (c ∷ o, e ∙ append_assoc output (c ∷ []) o, char ho hc x)

  step_open :
      (output t out : Text)
      → Meaning output (inside []) t out
      → Meaning output outside (b'{' ∷ t) out
  step_open output t out (more, value, rest, o, et, all, eg, eo, x) =
      (value ++ o, eo, rw et (variable more value rest o all eg x))

  step_inside :
      (output key : Text) (c : ℕ) (t out : Text)
      → c ≢ b'}'
      → Meaning output (inside (key ++ c ∷ [])) t out
      → Meaning output (inside key) (c ∷ t) out
  step_inside output key c t out hc (more, value, rest, o, et, all, eg, eo, x) = (
    c ∷ more,
    value,
    rest,
    o,
    ap (◌∷◌ c) et,
    (hc, all),
    rw (← append_assoc key (c ∷ []) more) eg,
    eo,
    x,
  )

  step_close :
      (output key value t out : Text)
      → get (trim key) vars ≡ some value
      → Meaning (output ++ value) outside t out
      → Meaning output (inside key) (b'}' ∷ t) out
  step_close output key value t out eg (o, e, x) =
      ([], value, t, o, refl, tt, rw (append-nil key) eg, e ∙ append_assoc output value o, x)

  -- One character backwards: what holds after it holds before it.
  char-Meaning :
      (c : ℕ) (t output : Text) (mode : Mode) (out : Text) (next : Expansion)
      → expand_char id vars output mode c ≡ ok next
      → Meaning next.output next.mode t out
      → Meaning output mode (c ∷ t) out
  unfolding expand_char substitute
  char-Meaning c t output outside out next h m = elim (Bool-cases (c == b'{')) [
    | inl open_brace ↦
        let same : next ≡ record { output = output; mode = inside [] } = ground arith in
        let is_open : c ≡ b'{' = ground arith in rw is_open (step_open output t out (rw same at m))
    | inr not_open ↦
        let same : next ≡ record { output = output ++ c ∷ []; mode = outside } = ground arith in
        step_outside output c t out (ground arith) (ground arith) (rw same at m)
  ]
  char-Meaning c t output (inside key) out next h m = elim (Bool-cases (c == b'}')) [
    | inl close_brace ↦
        let looked_up : substitute id vars output key ≡ ok next = rw close_brace at h in
        let (value, found, e) = >>=-eq-ok (ok_or (get (trim key) vars) _) _ looked_up in
        let same : next ≡ record { output = output ++ value; mode = outside } = cc in
        let is_close : c ≡ b'}' = ground arith in
        rw is_close (step_close output key value t out (ok_or-eq-ok _ _ found) (rw same at m))
    | inr not_close ↦
        let same : next ≡ record { output = output; mode = inside (key ++ c ∷ []) } =
          ground arith in
        step_inside output key c t out (ground arith) (rw same at m)
  ]

  expand_from-Meaning :
      (t : Text) (output : Text) (mode : Mode) (out : Text)
      → expand_from id vars (record { output = output; mode = mode }) t ≡ ok out
      → Meaning output mode t out
  unfolding expand_from
  expand_from-Meaning [] output outside out h = ([], cc (append-nil output), done)
  expand_from-Meaning [] output (inside key) out h = cc
  expand_from-Meaning (c ∷ t) output mode out h =
      let (next, step, later) = >>=-eq-ok (expand_char id vars output mode c) _ h in
      char-Meaning c t output mode out next step
        (expand_from-Meaning t next.output next.mode out later)

  -- The machine reads a key to its brace.
  run_key :
      (key output acc value t : Text)
      → All (λ c. c ≢ b'}') key
      → get (trim (acc ++ key)) vars ≡ some value
      → expand_from id vars (record { output = output; mode = inside acc }) (key ++ b'}' ∷ t)
        ≡ expand_from id vars (record { output = output ++ value; mode = outside }) t
  unfolding expand_from expand_char substitute
  run_key [] output acc value t all h =
      rw (let e : get (trim acc) vars ≡ some value = rw append-nil at h in e)
  run_key (c ∷ key) output acc value t all h =
      let other : (c == b'}') ≡ false = ground (arith, all.0) in
      rw other
        (run_key key output (acc ++ c ∷ []) value t all.1 (rw (append_assoc acc (c ∷ []) key) h))

  Expands-expand_from :
      (output : Text) {t o : Text}
      → Expands vars t o
      → expand_from id vars (record { output = output; mode = outside }) t ≡ ok (output ++ o)
  unfolding expand_from expand_char
  Expands-expand_from output done = cc (append-nil output)
  Expands-expand_from output (char {c} {t} {o} ho hc x) =
      let not_open : (c == b'{') ≡ false = ground (arith, ho) in
      let not_close : (c == b'}') ≡ false = ground (arith, hc) in
      rw (not_open, not_close)
        (Expands-expand_from (output ++ c ∷ []) x ∙ ap ok (append_assoc output (c ∷ []) o))
  Expands-expand_from output (variable key value t o all eg x) =
      run_key key output [] value t all eg
      ∙ Expands-expand_from (output ++ value) x
      ∙ ap ok (append_assoc output value o)

  -- `expand_overlay_template` succeeds exactly on the templates that have a meaning, with it.
  pub expand_overlay_template-Expands :
      (template out : Text)
      → (expand_overlay_template id template vars ≡ ok out) ↔ Expands vars template out
  unfolding expand_overlay_template
  expand_overlay_template-Expands template out = (
    λ h. let (o, e, x) = expand_from-Meaning template [] outside out h in rw e x,
    λ x. Expands-expand_from [] x,
  )
