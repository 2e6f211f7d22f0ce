-- ===== src/Cosmwasm/Strokes.antt =====
-- A host for tests, whose texts of numbers are read back: a number is written as that many strokes.
use Prim.Native.Char.{Char}
use Prim.Native.String.{String}
use mrgnd_perpetuals.Base.{ℕ, zero, suc, ◌≡◌, refl, ap, ok}
use mrgnd_perpetuals.Cosmwasm.Host.{Api}

abbrev stroke : Char
stroke = "I"

abbrev strokes : ℕ → String
strokes zero = ""
strokes (suc n) = String.◌∷◌ stroke (strokes n)

abbrev stroke_count : String → ℕ
stroke_count String.[] = 0
stroke_count (String.◌∷◌ c text) = suc (stroke_count text)

stroke_count-strokes : (n : ℕ) → stroke_count (strokes n) ≡ n
stroke_count-strokes zero = refl
stroke_count-strokes (suc n) = ap suc (stroke_count-strokes n)

abbrev pub host_api : Api
host_api = record {
  addr_validate = ok;
  seconds = λ t. t;
  from_seconds = ok;
  to_string = strokes;
  from_str = λ text. ok (stroke_count text);
  debug = λ text. text;
}

pub from_str-to_string : (n : ℕ) → host_api.from_str (host_api.to_string n) ≡ ok n
from_str-to_string n = ap ok (stroke_count-strokes n)
