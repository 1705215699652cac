-- ===== src/Examples/Rows.antt =====
-- A table held in memory as a list of rows: it shows that the laws of `Table` can hold together. A
-- statement that would change a row's key fails.
use mathlib.Core.Option
use mathlib.Core.Bool.{false≢true}
use s3nitor.Prelude.{
  ℕ, ◌≡◌, ◌≤◌, refl, sym, ap, ◌∙◌, subst, inl, inr, Bool, true, false, Bool-cases, not, ◌&&◌,
  Option, none, some, Option-cases, List, [], ◌∷◌, All, any, length, take, keep, arith,
  if◌then◌else◌,
}
use s3nitor.Scanner.{failure}
use s3nitor.Table.{
  Table, Write, failed, done, Answer, rows, unread, Look, found, missing, or_insert, count_row,
}
use s3nitor.Examples.Choices.{
  overwritten, swapped, All-keep, any-keep, All-take, ahead, take_few, some_inj,
}

module _ (K R : Type 0) (key : R → K) (same : K → K → Bool) (same_refl : (k : K) → same k k ≡ true)
    (same-eq : (j k : K) → same j k ≡ true → j ≡ k) where
  abbrev pub row_of : List R → K → Option R
  row_of [] k = none
  row_of (r ∷ rs) k = let rest = row_of rs k in if same (key r) k then some r else rest

  abbrev pub put : R → List R → List R
  put r [] = r ∷ []
  put r (q ∷ qs) = let rest = put r qs in if same (key q) (key r) then r ∷ qs else q ∷ rest

  not_both : (a b j : K) → same a b ≡ false → (same a j && same b j) ≡ false
  not_both a b j apart = elim (Bool-cases (same a j && same b j)) [
    | inr e ↦ e
    | inl e ↦
        let p : a ≡ j = same-eq a j (ground arith) in
        let q : b ≡ j = same-eq b j (ground arith) in
        absurd (false≢true (sym apart ∙ subst (λ x. same a x ≡ true) (p ∙ sym q) (same_refl a)))
  ]

  row_of-put :
      (r : R) (qs : List R) (j : K)
      → row_of (put r qs) j ≡ (if same (key r) j then some r else row_of qs j)
  row_of-put r [] j = refl
  row_of-put r (q ∷ qs) j = elim (Bool-cases (same (key q) (key r))) [
    | inl e ↦ rw (e, same-eq (key q) (key r) e) (overwritten (same (key r) j) r q (row_of qs j))
    | inr apart ↦
        rw (apart, row_of-put r qs j)
          (swapped (same (key q) j) (same (key r) j) q r (row_of qs j)
            (not_both (key q) (key r) j apart))
  ]

  abbrev pub update : K → (R → Bool) → (R → R) → List R → Write (List R)
  update k p f s = elim (row_of s k) [
    | none ↦ done s 0
    | some r ↦
        if p r
        then (if same (key (f r)) k then done (put (f r) s) 1 else failed (failure "key"))
        else done s 0
  ]

  abbrev pub upsert : R → (R → R) → List R → Write (List R)
  upsert r f s = elim (row_of s (key r)) [
    | none ↦ done (put r s) 1
    | some o ↦ if same (key (f o)) (key r) then done (put (f o) s) 1 else failed (failure "key")
  ]

  -- What holds of the outcome of a statement, if it did not fail.
  abbrev After : Write (List R) → (List R → ℕ → Type 0) → Type 0
  After (failed e) P = Unit
  After (done t n) P = P t n

  abbrev Updated : K → (R → Bool) → (R → R) → List R → List R → ℕ → Type 0
  Updated k p f s t n =
      ((j : K)
        → row_of t j ≡ (
            if same k j then Option.map (λ r. if p r then f r else r) (row_of s j) else row_of s j))
      × (n ≡ count_row p (row_of s k))

  -- Where a function leaves the row of a key as it is, it may be applied to it.
  left_alone :
      (k : K) (g : R → R) (s : List R)
      → Option.map g (row_of s k) ≡ row_of s k
      → (j : K) → row_of s j ≡ (if same k j then Option.map g (row_of s j) else row_of s j)
  left_alone k g s h j = elim (Bool-cases (same k j)) [
    | inr apart ↦ rw apart refl
    | inl e ↦ rw e (subst (λ x. row_of s x ≡ Option.map g (row_of s x)) (same-eq k j e) (sym h))
  ]

  put_at :
      (k : K) (q : R) (g : R → R) (s : List R)
      → same (key q) k ≡ true
      → Option.map g (row_of s k) ≡ some q
      → (j : K) → row_of (put q s) j ≡ (if same k j then Option.map g (row_of s j) else row_of s j)
  put_at k q g s kept h j =
      row_of-put q s j
      ∙ rw (same-eq (key q) k kept) (elim (Bool-cases (same k j)) [
        | inr apart ↦ rw apart refl
        | inl e ↦ rw e (subst (λ x. some q ≡ Option.map g (row_of s x)) (same-eq k j e) (sym h))
      ])

  pub update-Updated :
      (k : K) (p : R → Bool) (f : R → R) (s : List R) → After (update k p f s) (Updated k p f s)
  update-Updated k p f s = elim (Option-cases (row_of s k)) [
    | inl gone ↦ rw (gone, update) (left_alone k _ s (rw gone refl), rw gone refl)
    | inr (r, at) ↦ elim (Bool-cases (p r)) [
      | inr passed ↦
          rw (at, passed, update) (left_alone k _ s (rw (at, passed) refl), rw (at, passed) refl)
      | inl hit ↦ elim (Bool-cases (same (key (f r)) k)) [
        | inr moved ↦ rw (at, hit, moved, update) tt
        | inl kept ↦
            rw (at, hit, kept, update)
              (put_at k (f r) _ s kept (rw (at, hit) refl), rw (at, hit) refl)
      ]
    ]
  ]

  abbrev Upserted : R → (R → R) → List R → List R → ℕ → Type 0
  Upserted r f s t n =
      (j : K)
      → row_of t j
        ≡ (if same (key r) j then some (or_insert (Option.map f (row_of s j)) r) else row_of s j)

  insert_at :
      (k : K) (q r : R) (f : R → R) (s : List R)
      → same (key q) k ≡ true
      → or_insert (Option.map f (row_of s k)) r ≡ q
      → (j : K)
      → row_of (put q s) j
        ≡ (if same k j then some (or_insert (Option.map f (row_of s j)) r) else row_of s j)
  insert_at k q r f s kept h j =
      row_of-put q s j
      ∙ rw (same-eq (key q) k kept) (elim (Bool-cases (same k j)) [
        | inr apart ↦ rw apart refl
        | inl e ↦ rw e (
            subst (λ x. some q ≡ some (or_insert (Option.map f (row_of s x)) r)) (same-eq k j e)
              (ap some (sym h)))
      ])

  pub upsert-Upserted : (r : R) (f : R → R) (s : List R) → After (upsert r f s) (Upserted r f s)
  upsert-Upserted r f s = elim (Option-cases (row_of s (key r))) [
    | inl gone ↦ rw (gone, upsert) (insert_at (key r) r r f s (same_refl (key r)) (rw gone refl))
    | inr (o, at) ↦ elim (Bool-cases (same (key (f o)) (key r))) [
      | inr moved ↦ rw (at, moved, upsert) tt
      | inl kept ↦ rw (at, kept, upsert) (insert_at (key r) (f o) r f s kept (rw at refl))
    ]
  ]

  abbrev is_other : K → R → Bool
  is_other k r = not (same (key r) k)

  -- The rows that pass a test, each the first of its key.
  abbrev pub selected : (R → Bool) → List R → List R
  selected p [] = []
  selected p (r ∷ rs) =
      let rest = keep (is_other (key r)) (selected p rs) in if p r then r ∷ rest else rest

  abbrev Found : (R → Bool) → List R → R → Type 0
  Found p s r = (row_of s (key r) ≡ some r) × (p r ≡ true)

  pub selected_sound : (p : R → Bool) (s : List R) → All (Found p s) (selected p s)
  selected_sound p [] = tt
  selected_sound p (r ∷ rs) =
      let rest =
        All-keep (Found p rs) (Found p (r ∷ rs)) (is_other (key r)) (selected p rs)
          (selected_sound p rs)
          (λ q h o. elim (Bool-cases (same (key r) (key q))) [
            | inr apart ↦ (rw apart h.0, h.1)
            | inl e ↦ absurd (
                false≢true (
                  sym (ap not (same_refl (key q)))
                  ∙ subst (λ x. not (same (key q) x) ≡ true) (same-eq (key r) (key q) e) o))
          ]) in
      elim (Bool-cases (p r)) [
        | inl hit ↦ rw hit ((rw (same_refl (key r)) refl, hit), rest)
        | inr passed ↦ rw passed rest
      ]

  other_key :
      (q : R) (k : K)
      → same (key q) k ≡ false
      → (x : R) → same k (key x) ≡ true
      → is_other (key q) x ≡ true
  other_key q k apart x e =
      let p = sym (same-eq k (key x) e) in
      elim (Bool-cases (same (key x) (key q))) [
        | inr o ↦ rw o refl
        | inl b ↦ absurd (
            false≢true (
              sym apart
              ∙ subst (λ y. same y k ≡ true) (same-eq (key x) (key q) b)
                  (subst (λ y. same y k ≡ true) (sym p) (same_refl k))))
      ]

  pub selected_complete :
      (p : R → Bool) (s : List R) (k : K) (r : R)
      → row_of s k ≡ some r
      → p r ≡ true
      → any (λ q. same k (key q)) (selected p s) ≡ true
  selected_complete p [] k r at h = absurd (ground arith)
  selected_complete p (q ∷ qs) k r at h = elim (Bool-cases (same (key q) k)) [
    | inl e ↦
        let same_row = some_inj q r (rw e at at) in
        let hit : p q ≡ true = subst (λ x. p x ≡ true) (sym same_row) h in
        let found' : same k (key q) ≡ true =
          subst (λ x. same k x ≡ true) (sym (same-eq (key q) k e)) (same_refl k) in
        rw (hit, found') refl
    | inr apart ↦
        let behind =
          any-keep (λ x. same k (key x)) (is_other (key q)) (selected p qs) (other_key q k apart)
          ∙ selected_complete p qs k r (rw apart at at) h in
        ahead (p q) q (keep (is_other (key q)) (selected p qs)) (λ x. same k (key x)) behind
  ]

  pub row_of-key : (s : List R) (k : K) (r : R) → row_of s k ≡ some r → same (key r) k ≡ true
  row_of-key [] k r at = absurd (ground arith)
  row_of-key (q ∷ qs) k r at = elim (Bool-cases (same (key q) k)) [
    | inl e ↦ subst (λ x. same (key x) k ≡ true) (some_inj q r (rw e at at)) e
    | inr apart ↦ row_of-key qs k r (rw apart at at)
  ]

  abbrev pub look : List R → K → Look R
  look s k = elim (row_of s k) [ none ↦ missing | some r ↦ found r ]

  pub look_found : (k : K) (s : List R) (r : R) → look s k ≡ found r → row_of s k ≡ some r
  look_found k s r e = elim (Option-cases (row_of s k)) [
    | inl gone ↦ absurd (ground (arith, rw (gone, look) at e))
    | inr (q, at) ↦ at ∙ ground (arith, rw (at, look) at e)
  ]

  pub look_missing : (k : K) (s : List R) → look s k ≡ missing → row_of s k ≡ none
  look_missing k s e = elim (Option-cases (row_of s k)) [
    | inl gone ↦ gone
    | inr (q, at) ↦ absurd (ground (arith, rw (at, look) at e))
  ]

  pub rows_inj : (xs ys : List R) → rows xs ≡ rows ys → xs ≡ ys
  rows_inj xs ys e = ap of_rows e
    where
      of_rows : Answer R → List R
      of_rows (rows zs) = zs
      of_rows (unread x) = xs

  abbrev pub list_table : Table K R key same
  list_table = record {
    State = List R;
    row_at = row_of;
    update = update;
    upsert = upsert;
    select = λ p n s. rows (take n (selected p s));
    select_all = λ p s. rows (selected p s);
    first = λ k s. look s k;
    update-row_at =
        λ k p f s t n j e. (subst (λ w. After w (Updated k p f s)) e (update-Updated k p f s)).0 j;
    update_count =
        λ k p f s t n e. (subst (λ w. After w (Updated k p f s)) e (update-Updated k p f s)).1;
    upsert-row_at =
        λ r f s t n j e. subst (λ w. After w (Upserted r f s)) e (upsert-Upserted r f s) j;
    select_sound = λ p n s rs e.
        subst (All (Found p s)) (rows_inj (take n (selected p s)) rs e)
          (All-take (Found p s) n (selected p s) (selected_sound p s));
    select_limit = λ p n s rs e.
        subst (λ xs. length xs ≤ n) (rows_inj (take n (selected p s)) rs e)
          (take_few n (selected p s));
    select_all_sound =
        λ p s rs e. subst (All (Found p s)) (rows_inj (selected p s) rs e) (selected_sound p s);
    select_all_complete = λ p s rs k r e at h.
        subst (λ xs. any (λ q. same k (key q)) xs ≡ true) (rows_inj (selected p s) rs e)
          (selected_complete p s k r at h);
    row_at-key = λ s k r at.
        subst (λ x. same k x ≡ true) (sym (same-eq (key r) k (row_of-key s k r at))) (same_refl k);
    first_found = look_found;
    first_missing = look_missing;
  }
