-- ===== src/Sat/Anchor/Distinct.antt =====
-- crates/sat/src/analyzer.rs: when `check_discriminator_collisions` reports nothing.
use mathlib.Core.List.Memᴰ
use mathlib.Core.List.{Memᴰ, nil≢cons}
use solana_audit_toolkit.Prelude.{
  Text, text_eq, text_eq_iff, ℕ, ◌≡◌, ◌≢◌, ◌↔◌, refl, sym, ap, ◌∙◌, Bool, true, false, not, ◌&&◌,
  List, [], ◌∷◌, any, retain, is_empty, Bool-cases, inl, inr, false_ne_true, arith,
}
use solana_audit_toolkit.Sat.Types.{Finding}
use solana_audit_toolkit.Sat.Anchor.Reinit.{SourceInstruction}
use solana_audit_toolkit.Sat.Anchor.Collisions.{
  discriminator_of, collides, collisions, push_new, push_collision, push_collisions,
  check_discriminator_collisions, colliding_names, collision_finding,
}

module _ {A : Type 0} (p : A → Bool) where
  retain_none : (xs : List A) → retain p xs ≡ [] → (x : A) → Memᴰ x xs → p x ≡ false
  retain_none [] h x m = absurd (Memᴰ.not-nil m)
  retain_none (y ∷ ys) h x m = elim (Bool-cases (p y)) [
    | inl e ↦ absurd (nil≢cons (sym (rw (e) at h)))
    | inr e ↦ elim (Memᴰ.cases_cons m) [
      | inl q ↦ ap p q ∙ e
      | inr q ↦ retain_none ys (rw (e) at h) x q
    ]
  ]

  none_retained : (xs : List A) → ((x : A) → Memᴰ x xs → p x ≡ false) → retain p xs ≡ []
  none_retained [] h = refl
  none_retained (y ∷ ys) h = rw (h y (Memᴰ.head refl)) (none_retained ys (λ x m. h x (Memᴰ.tail m)))

empty_nil : {A : Type 0} (xs : List A) → is_empty xs ≡ true → xs ≡ []
empty_nil [] h = refl
empty_nil (x ∷ xs) h = absurd (false_ne_true h)

push_new_some : (f : Finding) (fs : List Finding) → push_new f fs ≢ []
unfolding push_new
push_new_some f [] h = nil≢cons (sym h)
push_new_some f (g ∷ fs) h =
    elim (Bool-cases (any (λ (x : Finding). text_eq x.title f.title) (g ∷ fs))) [
      | inl e ↦ nil≢cons (sym (rw (e) at h))
      | inr e ↦ nil≢cons (sym (rw (e) at h))
    ]

same_name : (x y z : Bool) → x ≡ true → z ≡ true → (x && (not y && z)) ≡ false → y ≡ true
same_name x y z h k e = ground arith

module _ (digest : Text → List ℕ) where
  pushed :
      (instructions : List SourceInstruction) (ix : SourceInstruction) (findings : List Finding)
      → push_collision digest instructions ix findings ≡ []
      → (findings ≡ []) × (collisions digest instructions ix ≡ [])
  unfolding push_collision
  pushed instructions ix findings h =
      elim (Bool-cases (is_empty (collisions digest instructions ix))) [
        | inl e ↦ (rw (push_collision, e) at h, empty_nil (collisions digest instructions ix) e)
        | inr e ↦ absurd (
            push_new_some
              (collision_finding (colliding_names digest ix (collisions digest instructions ix))
                (discriminator_of digest ix.name) ix.program_name)
              findings (rw (push_collision, e) at h))
      ]

  all_pushed :
      (instructions rest : List SourceInstruction) (findings : List Finding)
      → push_collisions digest instructions rest findings ≡ []
      → (findings ≡ [])
        × ((ix : SourceInstruction) → Memᴰ ix rest → collisions digest instructions ix ≡ [])
  unfolding push_collisions
  all_pushed instructions [] findings h = (h, λ ix m. absurd (Memᴰ.not-nil m))
  all_pushed instructions (ix ∷ rest) findings h =
      let (e, later) =
        all_pushed instructions rest (push_collision digest instructions ix findings) h in
      let (f, c) = pushed instructions ix findings e in
      (
        f,
        λ x m. elim (Memᴰ.cases_cons m) [
          | inl q ↦ ap (collisions digest instructions) q ∙ c
          | inr q ↦ later x q
        ],
      )

  none_pushed :
      (instructions rest : List SourceInstruction)
      → ((ix : SourceInstruction) → Memᴰ ix rest → collisions digest instructions ix ≡ [])
      → push_collisions digest instructions rest [] ≡ []
  unfolding push_collisions push_collision
  none_pushed instructions [] h = refl
  none_pushed instructions (ix ∷ rest) h =
      ap (push_collisions digest instructions rest) (quiet (h ix (Memᴰ.head refl)))
      ∙ none_pushed instructions rest (λ x m. h x (Memᴰ.tail m))
    where
      quiet : collisions digest instructions ix ≡ [] → push_collision digest instructions ix [] ≡ []
      quiet e = rw (push_collision, e) refl

  -- Two instructions of one program with different names have different discriminators.
  pub IsCollisionFree : List SourceInstruction → Type 0
  IsCollisionFree instructions =
      (a b : SourceInstruction)
      → Memᴰ a instructions
      → Memᴰ b instructions
      → a.program_name ≡ b.program_name
      → discriminator_of digest a.name ≡ discriminator_of digest b.name
      → a.name ≡ b.name

  collides_if :
      (a b : SourceInstruction)
      → b.program_name ≡ a.program_name
      → discriminator_of digest b.name ≡ discriminator_of digest a.name
      → collides digest a b ≡ false
      → b.name ≡ a.name
  unfolding collides
  collides_if a b p d h = (text_eq_iff b.name a.name).0 (
      same_name (text_eq b.program_name a.program_name) (text_eq b.name a.name)
        (text_eq (discriminator_of digest b.name) (discriminator_of digest a.name))
        ((text_eq_iff b.program_name a.program_name).1 p)
        ((text_eq_iff (discriminator_of digest b.name) (discriminator_of digest a.name)).1 d) h)

  collides_only :
      (a b : SourceInstruction)
      → (b.program_name ≡ a.program_name
          → discriminator_of digest b.name ≡ discriminator_of digest a.name
          → b.name ≡ a.name)
      → collides digest a b ≡ false
  unfolding collides
  collides_only a b h = elim (Bool-cases (text_eq b.program_name a.program_name)) [
    | inr e ↦ rw (collides, e) refl
    | inl e ↦ elim (Bool-cases (text_eq b.name a.name)) [
      | inl f ↦ rw (collides, e, f) refl
      | inr f ↦
          elim (Bool-cases
            (text_eq (discriminator_of digest b.name) (discriminator_of digest a.name))) [
              | inr g ↦ rw (collides, e, f, g) refl
              | inl g ↦ absurd (
                  false_ne_true (
                    sym f
                    ∙ (text_eq_iff b.name a.name).1 (
                        h ((text_eq_iff b.program_name a.program_name).0 e) (
                          (text_eq_iff (discriminator_of digest b.name)
                              (discriminator_of digest a.name)).0
                            g))))
            ]
    ]
  ]

  -- No collision is reported exactly if instructions of one program with one discriminator have one name.
  pub check_discriminator_collisions_iff :
      (instructions : List SourceInstruction)
      → (check_discriminator_collisions digest instructions ≡ []) ↔ IsCollisionFree instructions
  unfolding check_discriminator_collisions collisions IsCollisionFree
  check_discriminator_collisions_iff instructions = (
    λ h a b ma mb p d. sym (
        collides_if a b (sym p) (sym d) (
          retain_none (collides digest a) instructions
            ((all_pushed instructions instructions [] h).1 a ma) b mb)),
    λ free. none_pushed instructions instructions (λ a ma.
        none_retained (collides digest a) instructions
          (λ b mb. collides_only a b (λ p d. sym (free a b ma mb (sym p) (sym d))))),
  )
