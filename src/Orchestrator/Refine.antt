-- ===== src/Orchestrator/Refine.antt =====
-- internal/orchestrator/refine.go: the options of the refine loop, and the prompt of the next attempt.
use sandcode.Base.{
  ℕ, zero, suc, ◌-◌, ◌≡◌, refl, List, [], ◌∷◌, ◌++◌, Bool, true, false, ◌&&◌, leb, length, drop,
  codes, if◌then◌else◌,
}
use sandcode.Base.Bytes.{Bytes}
use sandcode.Base.Decimal.{itoa}
use sandcode.Base.Int.{ℤ, pos, negsuc, show_int}

-- VerifyTimeout is not read here.
pub record RefineOptions : Type 0 where
  pub enabled : Bool
  pub verify_cmd : List Bytes
  pub max_attempts : ℤ
  pub verify_tail_bytes : ℤ

-- n <= 0
abbrev pub not_positive : ℤ → Bool
not_positive (pos zero) = true
not_positive (pos (suc n)) = false
not_positive (negsuc n) = true

unfoldable pub effective : RefineOptions → RefineOptions
effective r = record r {
  max_attempts = if not_positive r.max_attempts then pos 3 else r.max_attempts;
  verify_tail_bytes = if not_positive r.verify_tail_bytes then pos 2000 else r.verify_tail_bytes;
}

abbrev pub has_words : List Bytes → Bool
has_words [] = false
has_words (w ∷ ws) = true

unfoldable pub active : RefineOptions → Bool
active r = r.enabled && has_words r.verify_cmd

-- `strings.Join(ws, " ")`
unfoldable pub spaced : List Bytes → Bytes
spaced [] = []
spaced (w ∷ []) = w
spaced (w ∷ v ∷ ws) = w ++ b' ' ∷ spaced (v ∷ ws)

unfoldable pub tail_within : Bytes → ℤ → Bytes
tail_within s (negsuc n) = s
tail_within s (pos zero) = s
tail_within s (pos (suc n)) =
    if leb (length s) (suc n) then s else codes "...(truncated)\n" ++ drop (length s - suc n) s

-- The three bytes of the long dash.
abbrev pub em_dash : Bytes
em_dash = 226 ∷ 128 ∷ 148 ∷ []

-- trim_space is `strings.TrimSpace`.
unfoldable pub build_refine_prompt : (Bytes → Bytes) → Bytes → Bytes → ℕ → ℤ → List Bytes → Bytes
unfolding spaced show_int
build_refine_prompt trim_space original_enriched verify_tail next_attempt max_attempts verify_cmd =
    codes "[SANDCODE REFINE "
    ++ em_dash
    ++ codes " Attempt "
    ++ itoa next_attempt
    ++ codes " of "
    ++ show_int max_attempts
    ++ codes "]\n\n## Previous Attempt Failed Verification\n\nThe verifier (`"
    ++ spaced verify_cmd
    ++ codes "`) reported a failure. Output tail:\n\n```\n"
    ++ trim_space verify_tail
    ++ codes "\n```\n\n## What to Do\n"
    ++ codes "- Inspect the diff you produced and the failure output above.\n"
    ++ codes "- Fix the specific root cause; do not revert unrelated changes.\n"
    ++ codes "- If you cannot fix it confidently, declare the gap explicitly.\n"
    ++ codes "- Do NOT re-run the verifier yourself "
    ++ em_dash
    ++ codes " the orchestrator will.\n\n"
    ++ codes "---\n\n## Original Task Context (re-stated)\n\n"
    ++ original_enriched

tail_within_test : tail_within (codes "abcdef") (pos 2) ≡ codes "...(truncated)\nef"
unfolding tail_within
tail_within_test = refl
