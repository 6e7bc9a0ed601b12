-- ===== src/Tokenizer/Select.antt =====
-- Which of the overlapping matches `entityTokenize` keeps.
use mathlib.Core.List.{Perm}
use mathlib.Core.List.Perm
use mathlib.Core.Path.{subst}
use monocle.Prelude.{
  ℕ, ◌≤◌, ◌<◌, ◌≡◌, refl, sym, ap, ◌⊎◌, inl, inr, true, false, leb, List, [], ◌∷◌, ◌++◌, All,
  Bool-cases, arith,
}
use monocle.Tokenizer.{Token, EntityToken, before, insert_sorted, sort_stable, select}

insert_sorted-perm : (a : EntityToken) (l : List EntityToken) → Perm (insert_sorted a l) (a ∷ l)
unfolding insert_sorted
insert_sorted-perm a [] = Perm.refl _
insert_sorted-perm a (b ∷ l) = elim (Bool-cases (before b a)) [
  | inl h ↦ rw h (Perm.trans (Perm.cons b (insert_sorted-perm a l)) (Perm.swap a b l))
  | inr h ↦ rw h (Perm.refl _)
]

sort_stable-perm : (l : List EntityToken) → Perm (sort_stable l) l
unfolding sort_stable
sort_stable-perm [] = Perm.refl _
sort_stable-perm (a ∷ l) =
    Perm.trans (insert_sorted-perm a (sort_stable l)) (Perm.cons a (sort_stable-perm l))

-- No match stands in front of one that starts earlier.
abbrev StartsFrom : ℕ → List EntityToken → Type 0
StartsFrom n [] = Unit
StartsFrom n (a ∷ l) = (n ≤ a.token.start_pos) × StartsFrom a.token.start_pos l

before_start : (a b : EntityToken) → before a b ≡ true → a.token.start_pos ≤ b.token.start_pos
unfolding before
before_start a b h = ground arith

not_before_start : (a b : EntityToken) → before a b ≡ false → b.token.start_pos ≤ a.token.start_pos
unfolding before
not_before_start a b h = ground arith

insert_sorted-StartsFrom :
    (n : ℕ) (a : EntityToken) (l : List EntityToken)
    → n ≤ a.token.start_pos
    → StartsFrom n l
    → StartsFrom n (insert_sorted a l)
unfolding insert_sorted
insert_sorted-StartsFrom n a [] h s = (h, tt)
insert_sorted-StartsFrom n a (b ∷ l) h s = elim (Bool-cases (before b a)) [
  | inl e ↦ rw e (s.0, insert_sorted-StartsFrom b.token.start_pos a l (before_start b a e) s.1)
  | inr e ↦ rw e (h, (not_before_start b a e, s.1))
]

sort_stable-StartsFrom : (l : List EntityToken) → StartsFrom 0 (sort_stable l)
unfolding sort_stable
sort_stable-StartsFrom [] = tt
sort_stable-StartsFrom (a ∷ l) =
    insert_sorted-StartsFrom 0 a (sort_stable l) (omega arith) (sort_stable-StartsFrom l)

-- Each token starts at or behind the end of the one before it.
abbrev pub IsDisjoint : ℕ → List Token → Type 0
IsDisjoint n [] = Unit
IsDisjoint n (t ∷ ts) = (n ≤ t.start_pos) × IsDisjoint t.end_pos ts

pub select-IsDisjoint : (last : ℕ) (l : List EntityToken) → IsDisjoint last (select last l)
unfolding select
select-IsDisjoint last [] = tt
select-IsDisjoint last (a ∷ l) = elim (Bool-cases (leb last a.token.start_pos)) [
  | inl h ↦ rw h (ground arith, select-IsDisjoint a.token.end_pos l)
  | inr h ↦ rw h (select-IsDisjoint last l)
]

-- What holds of every match holds of every match that is kept.
pub select-All {κ} :
    (P : Token → Type κ) (last : ℕ) (l : List EntityToken)
    → All (λ a. P a.token) l
    → All P (select last l)
unfolding select
select-All P last [] h = tt
select-All P last (a ∷ l) h = elim (Bool-cases (leb last a.token.start_pos)) [
  | inl e ↦ rw e (h.0, select-All P a.token.end_pos l h.1)
  | inr e ↦ rw e (select-All P last l h.1)
]

-- `t` is one of the tokens.
abbrev pub In : Token → List Token → Type 0
In t ts = (before : List Token) × (after : List Token) × (ts ≡ before ++ t ∷ after)

-- The match is kept, or it starts inside one that is kept and that does not start behind it.
abbrev pub IsSettled : List Token → EntityToken → Type 0
IsSettled ts a =
    In a.token ts
    ⊎ ((t : Token) × In t ts × (t.start_pos ≤ a.token.start_pos) × (a.token.start_pos < t.end_pos))

IsSettled-cons :
    (t : Token) (ts : List Token) (l : List EntityToken)
    → All (IsSettled ts) l
    → All (IsSettled (t ∷ ts)) l
IsSettled-cons t ts [] h = tt
IsSettled-cons t ts (a ∷ l) (inl (b, c, e), h) =
    (inl (t ∷ b, c, ap (◌∷◌ t) e), IsSettled-cons t ts l h)
IsSettled-cons t ts (a ∷ l) (inr (s, (b, c, e), p, q), h) =
    (inr (s, (t ∷ b, c, ap (◌∷◌ t) e), p, q), IsSettled-cons t ts l h)

select_taken :
    (last : ℕ) (a : EntityToken) (l : List EntityToken)
    → leb last a.token.start_pos ≡ true
    → select last (a ∷ l) ≡ a.token ∷ select a.token.end_pos l
unfolding select
select_taken last a l h = ground arith

select_skipped :
    (last : ℕ) (a : EntityToken) (l : List EntityToken)
    → leb last a.token.start_pos ≡ false
    → select last (a ∷ l) ≡ select last l
unfolding select
select_skipped last a l h = ground arith

-- Matches behind a kept token `t`.
select-IsSettled :
    (t : Token) (n : ℕ) (l : List EntityToken)
    → t.start_pos ≤ n
    → StartsFrom n l
    → All (IsSettled (t ∷ select t.end_pos l)) l
select-IsSettled t n [] h s = tt
select-IsSettled t n (a ∷ l) h s = elim (Bool-cases (leb t.end_pos a.token.start_pos)) [
  | inl e ↦
      subst (λ ts. All (IsSettled (t ∷ ts)) (a ∷ l)) (sym (select_taken t.end_pos a l e))
        (
          inl (t ∷ [], select a.token.end_pos l, refl),
          IsSettled-cons t (a.token ∷ select a.token.end_pos l) l
              (select-IsSettled a.token a.token.start_pos l (omega arith) s.1),
        )
  | inr e ↦
      subst (λ ts. All (IsSettled (t ∷ ts)) (a ∷ l)) (sym (select_skipped t.end_pos a l e))
        (
          inr (t, ([], select t.end_pos l, refl), omega arith, ground arith),
          select-IsSettled t a.token.start_pos l (omega arith) s.1,
        )
]

first-IsSettled : (l : List EntityToken) → StartsFrom 0 l → All (IsSettled (select 0 l)) l
first-IsSettled [] s = unfold select in tt
first-IsSettled (a ∷ l) s =
    subst (λ ts. All (IsSettled ts) (a ∷ l)) (sym (select_taken 0 a l (ground arith)))
      (
        inl ([], select a.token.end_pos l, refl),
        (select-IsSettled a.token a.token.start_pos l (omega arith) s.1),
      )

-- The kept matches overlap nowhere, and a match that is not kept starts inside a kept one that starts
-- no later: `l` is what the regular expressions found, in any order, and the sort only permutes it.
pub select-sort_stable :
    (l : List EntityToken)
    → Perm (sort_stable l) l
      × IsDisjoint 0 (select 0 (sort_stable l))
      × All (IsSettled (select 0 (sort_stable l))) (sort_stable l)
select-sort_stable l = (
  sort_stable-perm l,
  select-IsDisjoint 0 (sort_stable l),
  first-IsSettled (sort_stable l) (sort_stable-StartsFrom l),
)

insert_sorted-All {κ} :
    (P : EntityToken → Type κ) (a : EntityToken) (l : List EntityToken)
    → P a
    → All P l
    → All P (insert_sorted a l)
unfolding insert_sorted
insert_sorted-All P a [] p h = (p, tt)
insert_sorted-All P a (b ∷ l) p h = elim (Bool-cases (before b a)) [
  | inl e ↦ rw e (h.0, insert_sorted-All P a l p h.1)
  | inr e ↦ rw e (p, h)
]

pub sort_stable-All {κ} :
    (P : EntityToken → Type κ) (l : List EntityToken) → All P l → All P (sort_stable l)
unfolding sort_stable
sort_stable-All P [] h = tt
sort_stable-All P (a ∷ l) h = insert_sorted-All P a (sort_stable l) h.0 (sort_stable-All P l h.1)
