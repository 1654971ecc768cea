-- ===== src/Policy/DbRules/Groups.antt =====
-- What `group` makes of rows: one entry for each key, with the items of all rows of that key.
use compliance_framework.Prelude.{
  String, false, ◌≡◌, refl, sym, ap, subst, ◌∙◌, ◌↔◌, inl, inr, ◌==◌, eq_iff, eq_refl, All, All-map,
  List-cases, Bool-cases, filter, Option, none, some, lookup, List, [], ◌∷◌, ◌++◌, map, Dict, arith,
  if◌then◌else◌,
}
use mathlib.Core.List.{append-nil, append_assoc}
use compliance_framework.Policy.DbRules.{append_at, group}

-- The items of the rows with this key.
abbrev pub items_of : String → List (String × String) → List String
items_of key rows = map (λ (r : String × String). r.1) (filter (λ r. r.0 == key) rows)

-- What an entry is after these items are added to it.
abbrev grown : Option (List String) → List String → Option (List String)
grown (some ys) xs = some (ys ++ xs)
grown none [] = none
grown none (x ∷ xs) = some (x ∷ xs)

grown-nil : (o : Option (List String)) → grown o [] ≡ o
grown-nil none = refl
grown-nil (some ys) = ap some (append-nil ys)

grown-grown :
    (o : Option (List String)) (x : String) (xs : List String)
    → grown (grown o (x ∷ [])) xs ≡ grown o (x ∷ xs)
grown-grown none x xs = refl
grown-grown (some ys) x xs = ap some (append_assoc ys (x ∷ []) xs)

lookup-append_at :
    (key item j : String) (d : Dict (List String))
    → lookup j (append_at key item d)
      ≡ (if key == j then grown (lookup j d) (item ∷ []) else lookup j d)
unfolding lookup append_at
lookup-append_at key item j [] = ground arith
lookup-append_at key item j ((i, items) ∷ d) =
    ground (arith, eq_iff i key, eq_iff i j, eq_iff key j, lookup-append_at key item j d)

lookup-group :
    (j : String) (d : Dict (List String)) (rows : List (String × String))
    → lookup j (group d rows) ≡ grown (lookup j d) (items_of j rows)
unfolding group
lookup-group j d [] = sym (grown-nil (lookup j d))
lookup-group j d ((key, item) ∷ rows) =
    lookup-group j (append_at key item d) rows
    ∙ ap (λ o. grown o (items_of j rows)) (lookup-append_at key item j d)
    ∙ elim (Bool-cases (key == j)) [
      | inl same ↦ ground (arith, grown-grown (lookup j d) item (items_of j rows))
      | inr other ↦ ground arith
    ]

-- No key stands in the dictionary twice.
abbrev IsKeyed : Dict (List String) → Type 0
IsKeyed [] = Unit
IsKeyed ((key, items) ∷ d) = (lookup key d ≡ none) × IsKeyed d

append_at-IsKeyed :
    (key item : String) (d : Dict (List String)) → IsKeyed d → IsKeyed (append_at key item d)
unfolding append_at
append_at-IsKeyed key item [] h = (unfold lookup in refl, tt)
append_at-IsKeyed key item ((i, items) ∷ d) h = elim (Bool-cases (i == key)) [
  | inl same ↦ rw same h
  | inr other ↦
      let apart : (key == i) ≡ false = ground (arith, eq_iff i key, eq_iff key i) in
      rw other (lookup-append_at key item i d ∙ rw apart h.0, append_at-IsKeyed key item d h.1)
]

group-IsKeyed :
    (d : Dict (List String)) (rows : List (String × String)) → IsKeyed d → IsKeyed (group d rows)
unfolding group
group-IsKeyed d [] h = h
group-IsKeyed d ((key, item) ∷ rows) h =
    group-IsKeyed (append_at key item d) rows (append_at-IsKeyed key item d h)

none-some : (xs : List String) → ¬ ◌≡◌ {A = Option (List String)} none (some xs)
none-some xs e = absurd (cc)

module _ (R : String × List String → Type 0) where
  All-lookup :
      (d : Dict (List String)) (key : String) (items : List String)
      → All R d
      → lookup key d ≡ some items
      → R (key, items)
  unfolding lookup
  All-lookup [] key items h e = absurd (cc)
  All-lookup ((i, xs) ∷ d) key items h e = elim (Bool-cases (i == key)) [
    | inl same ↦
        let e' : xs ≡ items = ground arith in
        subst (λ (p : String × List String). R p)
          (ap (λ k. (k, xs)) ((eq_iff i key).0 same) ∙ ap (λ ys. (key, ys)) e') h.0
    | inr other ↦ All-lookup d key items h.1 (ground arith)
  ]

  lookup-All :
      (d : Dict (List String))
      → IsKeyed d
      → ((key : String) (items : List String) → lookup key d ≡ some items → R (key, items))
      → All R d
  unfolding lookup
  lookup-All [] h f = tt
  lookup-All ((i, xs) ∷ d) h f = (
    f i xs (rw (eq_refl i) refl),
    lookup-All d h.1 (λ key items e. f key items (elim (Bool-cases (i == key)) [
      | inl same ↦
          let k = ap (λ j. lookup j d) ((eq_iff i key).0 same) in
          absurd (none-some items (sym h.0 ∙ k ∙ e))
      | inr other ↦ rw other e
    ])),
  )

-- A key that has items is the key of a row.
row_of :
    (P : String → Type 0) (key x : String) (xs : List String) (rows : List (String × String))
    → All (λ row. P row.0) rows
    → items_of key rows ≡ x ∷ xs
    → P key
row_of P key x xs [] h e = absurd (cc)
row_of P key x xs ((k, y) ∷ rows) h e = elim (Bool-cases (k == key)) [
  | inl same ↦ subst P ((eq_iff k key).0 same) h.0
  | inr other ↦ row_of P key x xs rows h.1 (ground arith)
]

abbrev HasItems : List (String × String) → String × String → Type 0
HasItems rows row = (x : String) × (xs : List String) × (items_of row.0 rows ≡ x ∷ xs)

rows-HasItems : (rows : List (String × String)) → All (HasItems rows) rows
rows-HasItems [] = tt
rows-HasItems ((k, y) ∷ rows) = (
  (y, items_of k rows, let same = eq_refl k in ground arith),
  All-map
      (λ row (x, xs, e). elim (Bool-cases (k == row.0)) [
        | inl same ↦ (y, items_of row.0 rows, ground arith)
        | inr other ↦ (x, xs, ground arith)
      ])
      rows (rows-HasItems rows),
)

lookup-grouped :
    (rows : List (String × String)) (key x : String) (xs : List String)
    → items_of key rows ≡ x ∷ xs
    → lookup key (group [] rows) ≡ some (items_of key rows)
unfolding lookup
lookup-grouped rows key x xs e = lookup-group key [] rows ∙ rw e refl

nothing_found :
    (rows : List (String × String)) (key : String)
    → items_of key rows ≡ []
    → lookup key (group [] rows) ≡ none
unfolding lookup
nothing_found rows key e = lookup-group key [] rows ∙ rw e refl

some-injective : (xs ys : List String) → some xs ≡ some ys → xs ≡ ys
some-injective xs ys e = cc

-- Something holds of each entry exactly when it holds of each row's key with the items of that key.
pub group-All_iff :
    (R : String × List String → Type 0) (rows : List (String × String))
    → All R (group [] rows) ↔ All (λ row. R (row.0, items_of row.0 rows)) rows
group-All_iff R rows = (
  λ h.
      All-map
        (λ row (x, xs, e).
          All-lookup R (group [] rows) row.0 (items_of row.0 rows) h
            (lookup-grouped rows row.0 x xs e))
        rows (rows-HasItems rows),
  λ h. lookup-All R (group [] rows) (group-IsKeyed [] rows tt) (λ key items found.
      elim (List-cases (items_of key rows)) [
        | inl nothing ↦ absurd (none-some items (sym (nothing_found rows key nothing) ∙ found))
        | inr (x, xs, e) ↦
            let same : items_of key rows ≡ items =
              some-injective _ _ (sym (lookup-grouped rows key x xs e) ∙ found) in
            subst (λ ys. R (key, ys)) same (row_of (λ k. R (k, items_of k rows)) key x xs rows h e)
      ]),
)
