-- ===== src/Tree/Prefix.antt =====
-- The string helpers of node.go against the specification's: the prefix test, the common prefix, and
-- the two ways of cutting a path.
use goichi.Prelude.{
  ℕ, zero, suc, ◌+◌, ◌≤◌, ◌<◌, ◌≡◌, refl, sym, ap, ◌∙◌, Bool, true, false, not, ◌&&◌, [], ◌∷◌, ◌++◌,
  ◌==◌, length, length-append, is_empty, take, drop, arith, none, some, Option-cases, lt→ltb, inl,
  inr,
}
use mathlib.Core.List.{append-nil, append_assoc}
use mathlib.Core.Path.{◌≡⟨◌⟩◌, ◌∎}
use goichi.Prelude.Text.{Bytes, bytes_eq}
use goichi.Tree.{norm, prefix_loop, has_prefix, common_prefix, index_special, cut_slash, cut_static}
use goichi.Tree.Spec.{starts, until_slash, from_slash, accepts}

prefix_loop-eq-starts : (s p : Bytes) → prefix_loop s p ≡ starts true p s
unfolding prefix_loop starts norm
prefix_loop-eq-starts s [] = refl
prefix_loop-eq-starts [] (y ∷ ys) = refl
prefix_loop-eq-starts (x ∷ xs) (y ∷ ys) = ground (arith, prefix_loop-eq-starts xs ys)

bytes_eq-take : (s p : Bytes) → bytes_eq (take (length p) s) p ≡ starts false p s
unfolding starts norm
bytes_eq-take s [] = refl
bytes_eq-take [] (y ∷ ys) = refl
bytes_eq-take (x ∷ xs) (y ∷ ys) = ground (arith, bytes_eq-take xs ys)

starts-length : (ci : Bool) (p s : Bytes) → starts ci p s ≡ true → length p ≤ length s
unfolding starts
starts-length ci [] s h = omega arith
starts-length ci (y ∷ ys) [] h = ground arith
starts-length ci (y ∷ ys) (x ∷ xs) h = ground (arith, starts-length ci ys xs)

pub has_prefix-eq-starts : (s p : Bytes) (ci : Bool) → has_prefix s p ci ≡ starts ci p s
unfolding has_prefix
has_prefix-eq-starts s p true = ground (arith, prefix_loop-eq-starts s p, starts-length true p s)
has_prefix-eq-starts s p false = ground (arith, bytes_eq-take s p, starts-length false p s)

-- The cut of `match` and of ':' in `insert`, component by component.
pub cut_slash_lem :
    (s : Bytes) → ((cut_slash s).0 ≡ until_slash s) × ((cut_slash s).1 ≡ from_slash s)
unfolding cut_slash until_slash from_slash
cut_slash_lem [] = (refl, refl)
cut_slash_lem (x ∷ xs) = ground (arith, cut_slash_lem xs)

pub length-from_slash-le : (s : Bytes) → length (from_slash s) ≤ length s
unfolding from_slash
length-from_slash-le [] = omega arith
length-from_slash-le (x ∷ xs) = ground (arith, length-from_slash-le xs)

-- Skipping a name is cutting it off.
pub accepts-skip :
    (ci : Bool) (p s : Bytes) → accepts true ci p s ≡ accepts false ci (from_slash p) s
unfolding accepts from_slash
accepts-skip ci [] [] = refl
accepts-skip ci [] (x ∷ xs) = refl
accepts-skip ci (c ∷ p) s = ground (arith, accepts-skip ci p s)

-- A literal run, and a pattern that begins with one.
unfoldable pub is_literal : Bytes → Bool
is_literal [] = true
is_literal (x ∷ xs) = not (x == b':') && not (x == b'*') && is_literal xs

pub accepts-append :
    (ci : Bool) (a q s : Bytes)
    → is_literal a ≡ true
    → accepts false ci (a ++ q) s ≡ (starts ci a s && accepts false ci q (drop (length a) s))
unfolding accepts starts is_literal
accepts-append ci [] q s h = refl
accepts-append ci (x ∷ a) q [] h = ground arith
accepts-append ci (x ∷ a) q (y ∷ s) h = ground (arith, accepts-append ci a q s)

pub starts-take-drop :
    (ci : Bool) (l : ℕ) (p s : Bytes)
    → starts ci p s ≡ (starts ci (take l p) s && starts ci (drop l p) (drop (length (take l p)) s))
unfolding starts
starts-take-drop ci zero p s = refl
starts-take-drop ci (suc l) [] s = refl
starts-take-drop ci (suc l) (y ∷ p) [] = refl
starts-take-drop ci (suc l) (y ∷ p) (x ∷ s) = ground (arith, starts-take-drop ci l p s)

-- The runs that `commonPrefix` finds equal start the same paths.
pub starts-common_prefix :
    (ci : Bool) (p q s : Bytes)
    → starts ci (take (common_prefix p q ci) p) s ≡ starts ci (take (common_prefix p q ci) q) s
unfolding starts common_prefix
starts-common_prefix ci [] q s = refl
starts-common_prefix ci (x ∷ p) [] s = refl
starts-common_prefix ci (x ∷ p) (y ∷ q) [] = ground arith
starts-common_prefix ci (x ∷ p) (y ∷ q) (z ∷ s) = ground (arith, starts-common_prefix ci p q s)

pub length-take-common_prefix :
    (ci : Bool) (p q : Bytes)
    → (length (take (common_prefix p q ci) p) ≡ common_prefix p q ci)
      × (length (take (common_prefix p q ci) q) ≡ common_prefix p q ci)
unfolding common_prefix
length-take-common_prefix ci [] q = ground arith
length-take-common_prefix ci (x ∷ p) [] = ground arith
length-take-common_prefix ci (x ∷ p) (y ∷ q) = ground (arith, length-take-common_prefix ci p q)

pub take-append-drop : (l : ℕ) (s : Bytes) → take l s ++ drop l s ≡ s
take-append-drop zero s = refl
take-append-drop (suc l) [] = refl
take-append-drop (suc l) (x ∷ s) = ap (◌∷◌ x) (take-append-drop l s)

pub take-length : (s : Bytes) → (take (length s) s ≡ s) × (drop (length s) s ≡ [])
take-length [] = (refl, refl)
take-length (x ∷ s) = (ap (◌∷◌ x) (take-length s).0, (take-length s).1)

is_literal-take : (l : ℕ) (s : Bytes) → is_literal s ≡ true → is_literal (take l s) ≡ true
unfolding is_literal
is_literal-take zero s h = refl
is_literal-take (suc l) [] h = refl
is_literal-take (suc l) (x ∷ s) h = ground (arith, is_literal-take l s)

index_special-none : (s : Bytes) → index_special s ≡ none → is_literal s ≡ true
unfolding is_literal
index_special-none [] h = refl
index_special-none (x ∷ s) h = ground (arith, index_special-none s)

index_special-some : (s : Bytes) (i : ℕ) → index_special s ≡ some i → is_literal (take i s) ≡ true
unfolding is_literal
index_special-some [] i h = ground arith
index_special-some (x ∷ s) zero h = refl
index_special-some (x ∷ s) (suc i) h = ground (arith, index_special-some s i)

-- The literal run of a path that starts with a literal byte: not empty, literal, and with the rest
-- the whole path.
pub record Cut (c : ℕ) (p : Bytes) (r : Bytes × Bytes) : Type 0 where
  pub whole : r.0 ++ r.1 ≡ c ∷ p
  pub literal : is_literal r.0 ≡ true
  pub nonempty : is_empty r.0 ≡ false

pub cut_static-Cut :
    (c : ℕ) (p : Bytes) → (c == b':') ≡ false → (c == b'*') ≡ false → Cut c p (cut_static (c ∷ p))
unfolding cut_static
cut_static-Cut c p h k = elim (Option-cases (index_special p)) [
  | inl e ↦
      rw (h, k, e, cut_static, index_special)
        (record {
          whole = append-nil (c ∷ p);
          literal = index_special-none (c ∷ p) (ground arith);
          nonempty = refl;
        })
  | inr (i, e) ↦
      rw (h, k, e, lt→ltb 0 (suc i) (omega arith), cut_static, index_special)
        (record {
          whole = take-append-drop (suc i) (c ∷ p);
          literal = index_special-some (c ∷ p) (suc i) (ground arith);
          nonempty = refl;
        })
]

pub accepts-nil : (ci : Bool) (s : Bytes) → accepts false ci [] s ≡ is_empty s
unfolding accepts
accepts-nil ci [] = refl
accepts-nil ci (x ∷ s) = refl

pub length-take-add-drop : (l : ℕ) (p : Bytes) → length (take l p) + length (drop l p) ≡ length p
length-take-add-drop zero p = omega arith
length-take-add-drop (suc l) [] = omega arith
length-take-add-drop (suc l) (x ∷ p) = omega (arith, length-take-add-drop l p)

drop-nil : (n : ℕ) → drop {A = ℕ} n [] ≡ []
drop-nil zero = refl
drop-nil (suc n) = refl

pub drop-take-drop :
    (l : ℕ) (p s : Bytes)
    → drop (length (drop l p)) (drop (length (take l p)) s) ≡ drop (length p) s
drop-take-drop zero p s = refl
drop-take-drop (suc l) [] s = refl
drop-take-drop (suc l) (y ∷ p) [] = drop-nil (length (drop l p))
drop-take-drop (suc l) (y ∷ p) (x ∷ s) = drop-take-drop l p s

-- A pattern that begins with a literal run, cut where the run parts from another.
pub accepts-common_prefix :
    (ci : Bool) (p a q s : Bytes)
    → is_literal a ≡ true
    → accepts false ci (a ++ q) s ≡ (
        starts ci (take (common_prefix p a ci) p) s
        && accepts false ci (drop (common_prefix p a ci) a ++ q) (drop (common_prefix p a ci) s))
accepts-common_prefix ci p a q s h =
    let l = common_prefix p a ci in
    accepts false ci (a ++ q) s
    ≡⟨ ap (λ x. accepts false ci (x ++ q) s) (sym (take-append-drop l a)) ⟩
      accepts false ci ((take l a ++ drop l a) ++ q) s
    ≡⟨ ap (λ x. accepts false ci x s) (append_assoc (take l a) (drop l a) q) ⟩
      accepts false ci (take l a ++ (drop l a ++ q)) s
    ≡⟨ accepts-append ci (take l a) (drop l a ++ q) s (is_literal-take l a h) ⟩
      (starts ci (take l a) s && accepts false ci (drop l a ++ q) (drop (length (take l a)) s))
    ≡⟨ (cc (starts-common_prefix ci p a s, (length-take-common_prefix ci p a).1)) ⟩
      (starts ci (take l p) s && accepts false ci (drop l a ++ q) (drop l s)) ∎

pub length-drop-lt : (l : ℕ) (a : Bytes) → 0 < l → is_empty a ≡ false → length (drop l a) < length a
length-drop-lt zero a h e = absurd (omega arith)
length-drop-lt (suc l) [] h e = cc
length-drop-lt (suc l) (x ∷ a) h e = omega (arith, length-take-add-drop l a)

length_pos : (a : Bytes) → is_empty a ≡ false → 0 < length a
length_pos [] e = cc
length_pos (x ∷ a) e = omega arith

-- Whatever is left of a cut after its first byte is shorter than the whole.
pub Cut-lengths :
    (c : ℕ) (p : Bytes) (r : Bytes × Bytes)
    → Cut c p r
    → ((l : ℕ) → 0 < l → length (drop l r.0 ++ r.1) < suc (length p))
      × (length r.1 < suc (length p))
Cut-lengths c p (a, rest) cut =
    let total : length a + length rest ≡ suc (length p) =
      sym (length-append a rest) ∙ ap length cut.whole in
    (
      λ l pos.
          omega (arith, length-append (drop l a) rest, length-drop-lt l a pos cut.nonempty, total),
      omega (arith, total, length_pos a cut.nonempty),
    )
