-- ===== src/Examples/Dump.antt =====
-- A text for each object, different ones for different objects: what stands in for nlohmann's `dump`.
use spout_relay.Base.{
  ℕ, zero, suc, true, false, List, [], ◌∷◌, String, pos, negsuc, Codes, ◌≡◌, ◌≢◌, refl, sym, ◌∙◌,
  ap, arith,
}
use Prim.Native.Char.{Char, code}
use text.Mathlib.TextLemmas.{nil≢cons, head-eq_of_cons-eq, tail-eq_of_cons-eq}
use spout_relay.Metrics.Report.{
  Scalar, string, unsigned, signed, real, boolean, Object, health_object,
}
use spout_relay.Metrics.Save.Current.{IsDump}

-- A way to write a value in front of a text, from which both can be read back.
abbrev IsPrefixCode {ℓ} : {A : Type ℓ} → (A → String → String) → Type ℓ
IsPrefixCode {A} put = (x y : A) (s t : String) → put x s ≡ put y t → (x ≡ y) × (s ≡ t)

put_ℕ : ℕ → String → String
put_ℕ zero s = String.◌∷◌ "z" s
put_ℕ (suc n) s = String.◌∷◌ "s" (put_ℕ n s)

z≢s : ◌≢◌ {A = Char} "z" "s"
z≢s e = absurd (omega (arith, ap code e))

put_ℕ-IsPrefixCode : IsPrefixCode put_ℕ
unfolding put_ℕ
put_ℕ-IsPrefixCode zero zero s t e = (refl, tail-eq_of_cons-eq e)
put_ℕ-IsPrefixCode zero (suc n) s t e = absurd (z≢s (head-eq_of_cons-eq e))
put_ℕ-IsPrefixCode (suc m) zero s t e = absurd (z≢s (sym (head-eq_of_cons-eq e)))
put_ℕ-IsPrefixCode (suc m) (suc n) s t e =
    let (same, rest) = put_ℕ-IsPrefixCode m n s t (tail-eq_of_cons-eq e) in (ap suc same, rest)

put_pair {ℓ} :
    {A B : Type ℓ} → (A → String → String) → (B → String → String) → A × B → String → String
put_pair f g (a, b) s = f a (g b s)

put_pair-IsPrefixCode {ℓ} :
    {A B : Type ℓ} (f : A → String → String) (g : B → String → String)
    → IsPrefixCode f
    → IsPrefixCode g
    → IsPrefixCode (put_pair f g)
unfolding put_pair
put_pair-IsPrefixCode f g cf cg (a, b) (c, d) s t e =
    let (first, rest) = cf a c _ _ e in
    let (second, end) = cg b d s t rest in (λ i. (first i, second i), end)

put_list {ℓ} : {A : Type ℓ} → (A → String → String) → List A → String → String
put_list f [] s = String.◌∷◌ "z" s
put_list f (x ∷ xs) s = String.◌∷◌ "s" (f x (put_list f xs s))

put_list-IsPrefixCode {ℓ} :
    {A : Type ℓ} (f : A → String → String) → IsPrefixCode f → IsPrefixCode (put_list f)
unfolding put_list
put_list-IsPrefixCode f cf [] [] s t e = (refl, tail-eq_of_cons-eq e)
put_list-IsPrefixCode f cf [] (y ∷ ys) s t e = absurd (z≢s (head-eq_of_cons-eq e))
put_list-IsPrefixCode f cf (x ∷ xs) [] s t e = absurd (z≢s (sym (head-eq_of_cons-eq e)))
put_list-IsPrefixCode f cf (x ∷ xs) (y ∷ ys) s t e =
    let (first, others) = cf x y _ _ (tail-eq_of_cons-eq e) in
    let (rest, end) = put_list-IsPrefixCode f cf xs ys s t others in (λ i. first i ∷ rest i, end)

put_string : String → String → String
put_string String.[] s = String.◌∷◌ "z" s
put_string (String.◌∷◌ c cs) s = String.◌∷◌ "s" (String.◌∷◌ c (put_string cs s))

put_string-IsPrefixCode : IsPrefixCode put_string
unfolding put_string
put_string-IsPrefixCode String.[] String.[] s t e = (refl, tail-eq_of_cons-eq e)
put_string-IsPrefixCode String.[] (String.◌∷◌ d ds) s t e = absurd (z≢s (head-eq_of_cons-eq e))
put_string-IsPrefixCode (String.◌∷◌ c cs) String.[] s t e =
    absurd (z≢s (sym (head-eq_of_cons-eq e)))
put_string-IsPrefixCode (String.◌∷◌ c cs) (String.◌∷◌ d ds) s t e =
    let first = tail-eq_of_cons-eq e in
    let (rest, end) = put_string-IsPrefixCode cs ds s t (tail-eq_of_cons-eq first) in
    (λ i. String.◌∷◌ (head-eq_of_cons-eq first i) (rest i), end)

parts : Scalar → ℕ × Codes
parts (string c) = (0, c)
parts (unsigned n) = (1, n ∷ [])
parts (signed (pos n)) = (2, n ∷ [])
parts (signed (negsuc n)) = (3, n ∷ [])
parts (real f) = (4, f ∷ [])
parts (boolean true) = (5, [])
parts (boolean false) = (6, [])

whole : ℕ → Codes → Scalar
whole zero c = string c
whole (suc zero) (n ∷ _) = unsigned n
whole (suc (suc zero)) (n ∷ _) = signed (pos n)
whole (suc (suc (suc zero))) (n ∷ _) = signed (negsuc n)
whole (suc (suc (suc (suc zero)))) (f ∷ _) = real f
whole (suc (suc (suc (suc (suc zero))))) _ = boolean true
whole _ _ = boolean false

whole-parts : (x : Scalar) → whole (parts x).0 (parts x).1 ≡ x
unfolding whole parts
whole-parts (string c) = refl
whole-parts (unsigned n) = refl
whole-parts (signed (pos n)) = refl
whole-parts (signed (negsuc n)) = refl
whole-parts (real f) = refl
whole-parts (boolean true) = refl
whole-parts (boolean false) = refl

put_scalar : Scalar → String → String
unfolding parts
put_scalar x = put_pair put_ℕ (put_list put_ℕ) (parts x)

put_scalar-IsPrefixCode : IsPrefixCode put_scalar
unfolding put_scalar
put_scalar-IsPrefixCode x y s t e =
    let (same, end) =
      put_pair-IsPrefixCode put_ℕ (put_list put_ℕ) put_ℕ-IsPrefixCode
        (put_list-IsPrefixCode put_ℕ put_ℕ-IsPrefixCode) (parts x) (parts y) s t e in
    (sym (whole-parts x) ∙ ap (λ (p : ℕ × Codes). whole p.0 p.1) same ∙ whole-parts y, end)

unfoldable pub dump : Object → String
unfolding put_list put_pair put_string put_scalar put_ℕ
dump o = put_list (put_pair put_string put_scalar) o ""

dump_nonempty : (o : Object) → dump o ≢ ""
unfolding dump
dump_nonempty [] e = nil≢cons (sym e)
dump_nonempty (x ∷ xs) e = nil≢cons (sym e)

dump_injective : (a b : Object) → dump a ≡ dump b → a ≡ b
unfolding dump
dump_injective a b e =
    (put_list-IsPrefixCode (put_pair put_string put_scalar)
      (put_pair-IsPrefixCode put_string put_scalar put_string-IsPrefixCode put_scalar-IsPrefixCode)
      a b "" "" e).0

pub dump-IsDump : IsDump dump
dump-IsDump = record {
  nonempty = dump_nonempty;
  health = λ a b m n e. dump_injective (health_object false a m) (health_object false b n) e;
}
