-- ===== src/Keyset/Text.antt =====
-- `std::string_view` over memory, and the comparison that lib/keyset.cpp defines for it.
use Prim.Native.String.{String}
use Prim.Native.Char.{code}
use fuse_nx.Prelude.{
  ℕ, ◌+◌, Bool, true, false, if◌then◌else◌, leb, ◌==◌, ◌&&◌, List, [], ◌∷◌, ◌++◌, length, drop,
  get_elem?, none, some,
}

-- What a call does: it returns, it throws `std::out_of_range`, or it touches memory out of bounds.
pub data Outcome {ℓ} (A : Type ℓ) : Type ℓ where
  ok : A → Outcome A
  thrown : Outcome A
  fault : Outcome A

infixl 5 ◌>>=◌
abbrev pub ◌>>=◌ {ℓ κ} : {A : Type ℓ} {B : Type κ} → Outcome A → (A → Outcome B) → Outcome B
ok a >>= f = f a
thrown >>= f = thrown
fault >>= f = fault

-- The characters of a view, and the memory that follows them.
pub record StringView : Type 0 where
  pub chars : List ℕ
  pub beyond : List ℕ

abbrev pub string_view : List ℕ → List ℕ → StringView
string_view chars beyond = record { chars = chars; beyond = beyond }

-- A string literal has its terminator behind it.
abbrev pub literal : List ℕ → StringView
literal chars = string_view chars (0 ∷ [])

abbrev pub codes : String → List ℕ
codes String.[] = []
codes (String.◌∷◌ c s) = code c ∷ codes s

unfoldable pub to_lower : ℕ → ℕ
to_lower c = if leb b'A' c && leb c b'Z' then c + 32 else c

-- `std::equal(lhs.begin(), lhs.end(), rhs.begin(), …)`: it reads as far as `lhs` goes.
unfoldable pub equal : List ℕ → List ℕ → Outcome Bool
unfolding to_lower
equal [] mem = ok true
equal (x ∷ xs) [] = fault
equal (x ∷ xs) (y ∷ ys) = if to_lower x == to_lower y then equal xs ys else ok false

-- `operator ==(lhs, rhs)` of the anonymous namespace.
unfoldable pub view_eq : StringView → StringView → Outcome Bool
unfolding equal
view_eq lhs rhs = elim lhs.chars [
  | [] ↦ ok false
  | _ ↦ elim rhs.chars [ [] ↦ ok false | _ ↦ equal lhs.chars (rhs.chars ++ rhs.beyond) ]
]

unfoldable pub substr : StringView → ℕ → Outcome StringView
substr v n = if leb n (length v.chars) then ok (record v { chars = drop n v.chars }) else thrown

unfoldable pub at : StringView → ℕ → Outcome ℕ
at v i = elim (get_elem? v.chars i) [ none ↦ thrown | some c ↦ ok c ]
