-- ===== src/Base/Collation.antt =====
-- The equality of text columns in the database: by a collation, so letters that differ in case or
-- accent may be equal there.
use mathlib.Core.Bool.{Bool, true}
use mathlib.Core.Path.{◌≡◌, refl, sym, ◌∙◌}
use arcade_launcher_server.Base.Strings.{Text, text_eq, text_eq_iff, lowercase}

-- Equality under a collation is an equivalence.
pub record IsCollation (same_text : Text → Text → Bool) : Type 0 where
  pub itself : (a : Text) → same_text a a ≡ true
  pub back : (a b : Text) → same_text a b ≡ true → same_text b a ≡ true
  pub along : (a b c : Text) → same_text a b ≡ true → same_text b c ≡ true → same_text a c ≡ true

-- One that ignores the case of ASCII letters.
abbrev pub ignoring_case : Text → Text → Bool
ignoring_case a b = text_eq (lowercase a) (lowercase b)

pub ignoring_case-IsCollation : IsCollation ignoring_case
ignoring_case-IsCollation = record {
  itself = λ a. (text_eq_iff (lowercase a) (lowercase a)).1 refl;
  back = λ a b e.
      (text_eq_iff (lowercase b) (lowercase a)).1
        (sym ((text_eq_iff (lowercase a) (lowercase b)).0 e));
  along = λ a b c e e'. (text_eq_iff (lowercase a) (lowercase c)).1 (
      (text_eq_iff (lowercase a) (lowercase b)).0 e
      ∙ (text_eq_iff (lowercase b) (lowercase c)).0 e');
}
