-- ===== src/Kconfig/Config/New/Choice.antt =====
-- support/kconfig/confdata.c: a choice at random has exactly one value.
use cargos_buildroot.Base.{
  ℕ, zero, suc, ◌+◌, ◌-◌, ◌%◌, Option, none, ◌≤◌, ◌<◌, ◌≡◌, ◌≢◌, refl, ap, sym, ◌∙◌, Bool, true,
  false, ◌&&◌, not, some, List, [], ◌∷◌, length, if◌then◌else◌, ◌==◌, arith, Bool-cases, inl, inr,
}
use native.Mathlib.Nat.{mod-lt}
use cargos_buildroot.Kconfig.Symbol.{tri_no, tri_yes, Symbol}
use cargos_buildroot.Kconfig.Calc.Choice.Laws.{one_of}
use cargos_buildroot.Kconfig.Config.New.{
  NewDef, NewState, put_new, pick_value, pick_values, randomize_choice_values,
}

abbrev pub count_yes : (Symbol → NewDef) → List Symbol → ℕ
count_yes defs [] = 0
count_yes defs (s ∷ values) = (if (defs s).tri == tri_yes then 1 else 0) + count_yes defs values

abbrev pub distinct : List Symbol → Bool
distinct [] = true
distinct (s ∷ values) = not (one_of values s) && distinct values

count_head :
    (defs : Symbol → NewDef) (s : Symbol) (values : List Symbol) (picked : Bool) (n : ℕ)
    → (defs s).tri ≡ (if picked then tri_yes else tri_no)
    → count_yes defs values ≡ n
    → count_yes defs (s ∷ values) ≡ (if picked then 1 else 0) + n
count_head defs s values true n h k = rw (h, k) refl
count_head defs s values false n h k = rw (h, k) refl

-- Exactly one of the values is y, and it is the value of the choice.
abbrev pub HasOne : (Symbol → NewDef) → Symbol → List Symbol → Type 0
HasOne defs csym values =
    (count_yes defs values ≡ 1)
    × (t : Symbol) × ((defs csym).chosen ≡ some t)
    × (one_of values t ≡ true)
    × ((defs t).tri ≡ tri_yes)

-- The value with a number, from 0 on.
abbrev pub nth : List Symbol → ℕ → Option Symbol
nth [] i = none
nth (s ∷ values) zero = some s
nth (s ∷ values) (suc i) = nth values i

module _ (csym : Symbol) where
  pick_value_spares :
      (picked : Bool) (s t : Symbol) (st : NewState)
      → (t == s) ≡ false
      → (t == csym) ≡ false
      → (pick_value csym picked s st).defs t ≡ st.defs t
  unfolding pick_value
  pick_value_spares true s t st h k = rw (k, h) refl
  pick_value_spares false s t st h k = rw h refl

  pick_value_tri :
      (picked : Bool) (s : Symbol) (st : NewState)
      → (s == csym) ≡ false
      → ((pick_value csym picked s st).defs s).tri ≡ (if picked then tri_yes else tri_no)
  unfolding pick_value
  pick_value_tri true s st h = let same : (s == s) ≡ true = ground arith in rw (h, same) refl
  pick_value_tri false s st h = let same : (s == s) ≡ true = ground arith in rw same refl

  pick_value_chosen :
      (picked : Bool) (s : Symbol) (st : NewState)
      → (s == csym) ≡ false
      → ((pick_value csym picked s st).defs csym).chosen
        ≡ (if picked then some s else (st.defs csym).chosen)
  unfolding pick_value
  pick_value_chosen true s st h = let same : (csym == csym) ≡ true = ground arith in rw same refl
  pick_value_chosen false s st h = let other : (csym == s) ≡ false = ground arith in rw other refl

  module _ (def : ℕ) where
    -- The symbols that are no values of the choice, and not the choice, stay as they are.
    pick_values_spares :
        (cnt : ℕ) (values : List Symbol) (st : NewState) (t : Symbol)
        → one_of values t ≡ false
        → (t == csym) ≡ false
        → (pick_values csym def cnt values st).defs t ≡ st.defs t
    unfolding pick_values
    pick_values_spares cnt [] st t h k = refl
    pick_values_spares cnt (s ∷ values) st t h k =
        pick_values_spares (suc cnt) values (pick_value csym (def == cnt) s st) t (ground arith) k
        ∙ pick_value_spares (def == cnt) s t st (ground arith) k

    -- The first value keeps what its turn gives it.
    pick_values_first :
        (cnt : ℕ) (s : Symbol) (values : List Symbol) (st : NewState)
        → one_of values s ≡ false
        → (s == csym) ≡ false
        → ((pick_values csym def cnt (s ∷ values) st).defs s).tri
          ≡ (if def == cnt then tri_yes else tri_no)
    unfolding pick_values
    pick_values_first cnt s values st h k =
        ap (λ d. d.tri)
          (pick_values_spares (suc cnt) values (pick_value csym (def == cnt) s st) s h k)
        ∙ pick_value_tri (def == cnt) s st k

    -- Behind the number that is drawn, all values are n, and the choice keeps its value.
    pick_values_past :
        (cnt : ℕ) (values : List Symbol) (st : NewState)
        → def < cnt
        → distinct values ≡ true
        → one_of values csym ≡ false
        → (count_yes (pick_values csym def cnt values st).defs values ≡ 0)
          × (((pick_values csym def cnt values st).defs csym).chosen ≡ (st.defs csym).chosen)
    unfolding pick_values
    pick_values_past cnt [] st h d k = (refl, refl)
    pick_values_past cnt (s ∷ values) st h d k =
        let other : (def == cnt) ≡ false = ground arith in
        let apart : (s == csym) ≡ false = ground arith in
        let st' = pick_value csym (def == cnt) s st in
        let (c, e) =
          pick_values_past (suc cnt) values st' (omega arith) (ground arith) (ground arith) in
        let first = pick_values_first cnt s values st (ground arith) apart in
        let end = pick_values csym def (suc cnt) values st' in
        (
          count_head end.defs s values (def == cnt) 0 first c ∙ rw other refl,
          e ∙ (pick_value_chosen (def == cnt) s st apart ∙ rw other refl),
        )

    pick_values_one :
        (cnt : ℕ) (values : List Symbol) (st : NewState)
        → cnt ≤ def
        → def < cnt + length values
        → distinct values ≡ true
        → one_of values csym ≡ false
        → HasOne (pick_values csym def cnt values st).defs csym values
    unfolding pick_values
    pick_values_one cnt [] st h l d k = absurd (omega arith)
    pick_values_one cnt (s ∷ values) st h l d k =
        let apart : (s == csym) ≡ false = ground arith in
        let st' = pick_value csym (def == cnt) s st in
        let end = pick_values csym def (suc cnt) values st' in
        let first = pick_values_first cnt s values st (ground arith) apart in
        let tail : distinct values ≡ true = ground arith in
        let outside : one_of values csym ≡ false = ground arith in
        elim (Bool-cases (def == cnt)) [
          | inl e ↦
              let (c, f) = pick_values_past (suc cnt) values st' (ground arith) tail outside in
              (
                count_head end.defs s values (def == cnt) 0 first c ∙ rw e refl,
                s,
                f ∙ (pick_value_chosen (def == cnt) s st apart ∙ rw e refl),
                ground arith,
                first ∙ rw e refl,
              )
          | inr e ↦
              let (c, t, f, m, y) =
                pick_values_one (suc cnt) values st' (ground arith) (omega arith) tail outside in
              (
                count_head end.defs s values (def == cnt) 1 first c ∙ rw e refl,
                t,
                f,
                ground arith,
                y,
              )
        ]

    -- The choice gets the value with the number that is drawn.
    pick_values-nth :
        (cnt : ℕ) (values : List Symbol) (st : NewState)
        → cnt ≤ def
        → def < cnt + length values
        → distinct values ≡ true
        → one_of values csym ≡ false
        → ((pick_values csym def cnt values st).defs csym).chosen ≡ nth values (def - cnt)
    unfolding pick_values
    pick_values-nth cnt [] st h l d k = absurd (omega arith)
    pick_values-nth cnt (s ∷ values) st h l d k =
        let apart : (s == csym) ≡ false = ground arith in
        let st' = pick_value csym (def == cnt) s st in
        let tail : distinct values ≡ true = ground arith in
        let outside : one_of values csym ≡ false = ground arith in
        elim (Bool-cases (def == cnt)) [
          | inl e ↦
              let (_, f) = pick_values_past (suc cnt) values st' (ground arith) tail outside in
              let start : def - cnt ≡ 0 = ground arith in
              let here = pick_value_chosen (def == cnt) s st apart in
              rw start (f ∙ (here ∙ rw e refl))
          | inr e ↦
              let next : def - cnt ≡ suc (def - suc cnt) = ground arith in
              rw next
                (pick_values-nth (suc cnt) values st' (ground arith) (omega arith) tail outside)
        ]

index-lt :
    (rand : ℕ → ℕ) (calls : ℕ) (values : List Symbol)
    → values ≢ []
    → rand calls % length values < length values
index-lt rand calls [] h = absurd (h refl)
index-lt rand calls (s ∷ values) h = mod-lt (rand calls) (omega arith)

count_same :
    (defs defs' : Symbol → NewDef) (values : List Symbol)
    → ((t : Symbol) → (defs t).tri ≡ (defs' t).tri)
    → count_yes defs values ≡ count_yes defs' values
count_same defs defs' [] h = refl
count_same defs defs' (s ∷ values) h = rw (h s, count_same defs defs' values h) refl

-- Flags of the choice do not matter.
HasOne-put :
    (csym : Symbol) (values : List Symbol) (d : NewDef) (st : NewState)
    → d.tri ≡ (st.defs csym).tri
    → d.chosen ≡ (st.defs csym).chosen
    → HasOne st.defs csym values
    → HasOne (put_new csym d st).defs csym values
HasOne-put csym values d st h k (c, t, e, m, y) =
    let same : (csym == csym) ≡ true = ground arith in
    let tris : (s : Symbol) → ((put_new csym d st).defs s).tri ≡ (st.defs s).tri = λ s.
      elim (Bool-cases (s == csym)) [
        | inl f ↦ let at : s ≡ csym = ground arith in rw f (h ∙ ap (λ u. (st.defs u).tri) (sym at))
        | inr f ↦ rw f refl
      ] in
    (count_same (put_new csym d st).defs st.defs values tris ∙ c, t, rw same (k ∙ e), m, tris t ∙ y)

-- Where a choice is y and has values, which are distinct and not the choice itself, exactly one of them becomes y, and
-- the choice gets it as its value; it is the one whose number, from 0 on, is that which `rand` draws, modulo how many
-- there are.
pub randomize_choice_values_one :
    (rand : ℕ → ℕ) (csym : Symbol) (values : List Symbol) (st : NewState)
    → values ≢ []
    → distinct values ≡ true
    → one_of values csym ≡ false
    → let r = randomize_choice_values rand csym tri_yes values st in
      (r.0 ≡ true)
      × HasOne r.1.defs csym values
      × ((r.1.defs csym).chosen ≡ nth values (rand st.calls % length values))
unfolding randomize_choice_values
randomize_choice_values_one rand csym values st h d k =
    let def = rand st.calls % length values in
    let called = record st { calls = suc st.calls } in
    let st' = pick_values csym def 0 values called in
    let small : def < 0 + length values = omega (arith, index-lt rand st.calls values h) in
    let same : (csym == csym) ≡ true = ground arith in
    let whole : def - 0 ≡ def = omega arith in
    (
      refl,
      HasOne-put csym values (record (st'.defs csym) { has_value = true; is_valid = false }) st'
          refl refl (pick_values_one csym def 0 values called (omega arith) small d k),
      rw same (
          pick_values-nth csym def 0 values called (omega arith) small d k ∙ ap (nth values) whole),
    )
