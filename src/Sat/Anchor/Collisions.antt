-- ===== src/Sat/Anchor/Collisions.antt =====
-- crates/sat/src/analyzer.rs: `check_discriminator_collisions`, and `dedupe_findings`. SHA-256 is a parameter.
use mathlib.Core.List.{flatten}
use solana_audit_toolkit.Prelude.{
  Text, codes, text_eq, text_cmp, sort_by, debug_text, ℕ, Bool, true, false, not, ◌&&◌, some, List,
  [], ◌∷◌, ◌++◌, map, any, retain, take, is_empty, unwrap_or, if◌then◌else◌,
}
use solana_audit_toolkit.Sat.Types.{Severity, Finding}
use solana_audit_toolkit.Sat.Native.Source.{hex2}
use solana_audit_toolkit.Sat.Native.Callees.{dedup}
use solana_audit_toolkit.Sat.Anchor.Reinit.{SourceInstruction}

-- The equality of lists of bytes is that of texts.
abbrev pub bytes_eq : List ℕ → List ℕ → Bool
bytes_eq = text_eq

-- `{names:?}` between the brackets
unfoldable pub debug_names : List Text → Text
unfolding debug_text
debug_names [] = []
debug_names (n ∷ []) = debug_text n
debug_names (n ∷ m ∷ ns) = debug_text n ++ (codes ", " ++ debug_names (m ∷ ns))

unfoldable pub hex_text : List ℕ → Text
unfolding hex2
hex_text [] = []
hex_text (b ∷ bs) = hex2 b ++ hex_text bs

unfoldable pub collision_title : List Text → List ℕ → Text → Text
unfolding debug_names hex_text
collision_title names discriminator program_name = flatten (
    codes "Anchor Discriminator Collision: instructions ["
    ∷ debug_names names
    ∷ codes "] share discriminator 0x"
    ∷ hex_text discriminator
    ∷ codes " in program `"
    ∷ program_name
    ∷ codes "`"
    ∷ [])

unfoldable pub collision_finding : List Text → List ℕ → Text → Finding
unfolding collision_title
collision_finding names discriminator program_name = record {
  id = [];
  title = collision_title names discriminator program_name;
  severity = Severity.critical;
  description = flatten (
      codes "The instructions ["
      ∷ debug_names names
      ∷ codes "] produce the same 8-byte Anchor discriminator `0x"
      ∷ hex_text discriminator
      ∷ codes "` (sha256(\"global:<instruction_name>\")[0..8]) within program `"
      ∷ program_name
      ∷ codes
          "`. At runtime, the first matching instruction handler in the dispatch table will execute — potentially for the wrong instruction."
      ∷ []);
  location = some (flatten (codes "Source: #[program] module `" ∷ program_name ∷ codes "`" ∷ []));
  suggestion = some (
      codes
        "Rename one of the colliding instructions. Even a minor name change will produce a different discriminator hash.");
}

-- The push of a finding whose title no earlier one has.
unfoldable pub push_new : Finding → List Finding → List Finding
push_new finding findings =
    if any (λ (f : Finding). text_eq f.title finding.title) findings
    then findings
    else findings ++ finding ∷ []

module _ (digest : Text → List ℕ) where
  -- The first eight bytes of the digest.
  unfoldable pub discriminator_of : Text → List ℕ
  discriminator_of name = take 8 (digest (codes "global:" ++ name))

  -- The filter of `collisions`.
  unfoldable pub collides : SourceInstruction → SourceInstruction → Bool
  unfolding discriminator_of
  collides ix other =
      text_eq other.program_name ix.program_name
      && (not (text_eq other.name ix.name)
          && bytes_eq (discriminator_of other.name) (discriminator_of ix.name))

  unfoldable pub collisions : List SourceInstruction → SourceInstruction → List SourceInstruction
  unfolding collides
  collisions instructions ix = retain (collides ix) instructions

  -- `names`, sorted, each once.
  unfoldable pub colliding_names : SourceInstruction → List SourceInstruction → List Text
  unfolding dedup
  colliding_names ix others =
      dedup (sort_by text_cmp (ix.name ∷ map (λ (c : SourceInstruction). c.name) others))

  -- The body of the loop over the instructions.
  unfoldable pub push_collision :
      List SourceInstruction → SourceInstruction → List Finding → List Finding
  unfolding collisions colliding_names collision_finding push_new
  push_collision instructions ix findings =
      let others = collisions instructions ix in
      if is_empty others
      then findings
      else push_new
          (collision_finding (colliding_names ix others) (discriminator_of ix.name) ix.program_name)
          findings

  unfoldable pub push_collisions :
      List SourceInstruction → List SourceInstruction → List Finding → List Finding
  unfolding push_collision
  push_collisions instructions [] findings = findings
  push_collisions instructions (ix ∷ rest) findings =
      push_collisions instructions rest (push_collision instructions ix findings)

  unfoldable pub check_discriminator_collisions : List SourceInstruction → List Finding
  unfolding push_collisions
  check_discriminator_collisions instructions = push_collisions instructions instructions []

-- The key of a finding: title, location and description.
unfoldable pub same_key : Finding → Finding → Bool
same_key f g =
    text_eq f.title g.title
    && (text_eq (unwrap_or f.location []) (unwrap_or g.location [])
        && text_eq f.description g.description)

-- `dedupe_findings`, with the findings seen so far for their keys.
unfoldable pub dedupe_from : List Finding → List Finding → List Finding
unfolding same_key
dedupe_from seen [] = []
dedupe_from seen (f ∷ fs) = elim (any (same_key f) seen) [
  | true ↦ dedupe_from seen fs
  | false ↦ f ∷ dedupe_from (f ∷ seen) fs
]

unfoldable pub dedupe_findings : List Finding → List Finding
unfolding dedupe_from
dedupe_findings findings = dedupe_from [] findings
