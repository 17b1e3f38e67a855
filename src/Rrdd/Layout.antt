-- ===== src/Rrdd/Layout.antt =====
-- rrdd.py: what the writes of `update` leave in the file.
use xen_api.Base.{
  ℕ, zero, suc, ◌+◌, ◌-◌, List, [], ◌∷◌, ◌++◌, ◌≡◌, refl, sym, ap, ◌∙◌, length, take, drop,
  replicate, length-append, length-take, length-replicate, take-append, drop-append, append_assoc,
  append-nil, arith,
}
use xen_api.Base.Bytes.{Bytes}
use xen_api.Rrdd.Writer.{Api, before, write, seek, write_all}

abbrev pub concat : List Bytes → Bytes
concat [] = []
concat (bs ∷ rest) = bs ++ concat rest

pub take_exact : (xs ys : Bytes) (n : ℕ) → n ≡ length xs → take n (xs ++ ys) ≡ xs
take_exact xs ys n e = rw e (take-append xs ys)

pub drop_exact : (xs ys : Bytes) (n : ℕ) → n ≡ length xs → drop n (xs ++ ys) ≡ ys
drop_exact xs ys n e = rw e (drop-append xs ys)

pub length-before : (s : Api) → length (before s) ≡ s.position
unfolding before
length-before s =
    let a =
      length-append (take (s.position) (s.content)) (replicate (s.position - length s.content) 0) in
    let b = length-take (s.position) (s.content) in
    let c = length-replicate {A = ℕ} (s.position - length s.content) 0 in ground (arith, a, b, c)

before-prefix :
    (s : Api) (xs ys : Bytes) → s.content ≡ xs ++ ys → s.position ≡ length xs → before s ≡ xs
unfolding before
before-prefix s xs ys e n =
    let l = length-append xs ys in
    let none_missing : s.position - length s.content ≡ 0 = rw e (omega (arith, n, l)) in
    rw none_missing
      (append-nil (take (s.position) (s.content)) ∙ rw e (take_exact xs ys (s.position) n))

-- What was written stands behind what was before the position.
pub before-write : (bs : Bytes) (s : Api) → before (write bs s) ≡ before s ++ bs
unfolding write
before-write bs s =
    before-prefix (write bs s) (before s ++ bs) (drop (s.position + length bs) (s.content))
      (sym (append_assoc (before s) bs (drop (s.position + length bs) (s.content))))
      (sym (length-append (before s) bs ∙ ap (λ n. n + length bs) (length-before s)))

pub before-write_all : (vs : List Bytes) (s : Api) → before (write_all vs s) ≡ before s ++ concat vs
unfolding write_all
before-write_all [] s = sym (append-nil (before s))
before-write_all (bs ∷ rest) s =
    before-write_all rest (write bs s)
    ∙ ap (λ t. t ++ concat rest) (before-write bs s)
    ∙ append_assoc (before s) bs (concat rest)

pub content-write :
    (bs : Bytes) (s : Api) → (t : Bytes) × ((write bs s).content ≡ before (write bs s) ++ t)
unfolding write
content-write bs s = (drop (s.position + length bs) (s.content), go)
  where
    go : (write bs s).content ≡ before (write bs s) ++ drop (s.position + length bs) (s.content)
    go =
        sym (append_assoc (before s) bs (drop (s.position + length bs) (s.content)))
        ∙ ap (λ x. x ++ drop (s.position + length bs) (s.content)) (sym (before-write bs s))

drop-drop : (a b m : ℕ) (xs : Bytes) → m ≡ a + b → drop b (drop a xs) ≡ drop m xs
drop-drop zero b m xs e = let e' : m ≡ b = omega arith in rw e' refl
drop-drop (suc a) zero zero [] e = refl
drop-drop (suc a) (suc b) zero [] e = absurd (omega arith)
drop-drop (suc a) zero (suc m) [] e = refl
drop-drop (suc a) (suc b) (suc m) [] e = refl
drop-drop (suc a) b zero (x ∷ xs) e = absurd (omega arith)
drop-drop (suc a) b (suc m) (x ∷ xs) e = drop-drop a b m xs (omega arith)

drop_past : (xs ys : Bytes) (m b : ℕ) → m ≡ length xs + b → drop m (xs ++ ys) ≡ drop b ys
drop_past [] ys m b e = let e' : m ≡ b = omega arith in rw e' refl
drop_past (x ∷ xs) ys zero b e = absurd (omega arith)
drop_past (x ∷ xs) ys (suc m) b e = drop_past xs ys m b (omega arith)

-- Writes at the start, over the first bytes, leave the others.
pub content-header :
    (first second rest : Bytes) (front : Bytes) (s : Api)
    → s.content ≡ front ++ rest
    → length front ≡ length first + length second
    → (write second (write first (seek 0 s))).content ≡ first ++ (second ++ rest)
unfolding write
content-header first second rest front s e n =
    let none_before : before (seek 0 s) ≡ [] = before-prefix (seek 0 s) [] (s.content) refl refl in
    let one : before (write first (seek 0 s)) ≡ first =
      before-write first (seek 0 s) ∙ ap (λ x. x ++ first) none_before in
    let kept : drop (length first + length second) (s.content) ≡ rest =
      rw e (drop_exact front rest (length first + length second) (sym n)) in
    ap
      (λ x.
        x ++ (second ++ drop (0 + length first + length second) ((write first (seek 0 s)).content)))
      one
    ∙ ap (λ x. first ++ (second ++ x))
        (ap
            (λ x.
              drop (0 + length first + length second)
                (x ++ (first ++ drop (0 + length first) (s.content))))
            none_before
          ∙ drop_past first (drop (0 + length first) (s.content)) (0 + length first + length second)
              (length second) (omega arith)
          ∙ drop-drop (0 + length first) (length second) (length first + length second) (s.content)
              (omega arith)
          ∙ kept)
