-- ===== src/Prelude/Strings.antt =====
-- Tests on texts: `std::string` is a native text, its `size` counts bytes.
use Prim.Native.String.{String, len as byte_count}
use text.Mathlib.Text.{◌==◌ as text_eq}
use text.Mathlib.TextEquality.{eq_iff}
use niba.Prelude.{ℕ, ◌≡◌, ◌↔◌, Bool, true}

abbrev pub str_eq : String → String → Bool
str_eq s t = text_eq s t

abbrev pub size : String → ℕ
size s = byte_count s

pub str_eq_iff : (s t : String) → (str_eq s t ≡ true) ↔ (s ≡ t)
str_eq_iff s t = eq_iff s t
