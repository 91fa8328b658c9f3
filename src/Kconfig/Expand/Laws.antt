-- ===== src/Kconfig/Expand/Laws.antt =====
-- support/kconfig/symbol.c: the expansion of a string stays in its buffers, and replaces each name by its value.
use cargos_buildroot.Base.{
  ℕ, zero, suc, ◌+◌, ◌≤◌, ◌<◌, ◌≡◌, refl, ap, ◌∙◌, subst, Bool, true, false, ◌&&◌, not, Option,
  none, some, List, [], ◌∷◌, ◌++◌, Text, length, length-append, ◌==◌, ltb, arith, Bool-cases, inl,
  inr, ◌>>=◌,
}
use mathlib.Core.List.{append_assoc}
use cargos_buildroot.Kconfig.Symbol.{Store}
use cargos_buildroot.Kconfig.Strings.{all_bytes}
use cargos_buildroot.Kconfig.Table.{Table}
use cargos_buildroot.Kconfig.Config.Line.{split_at}
use cargos_buildroot.Kconfig.Config.Line.Laws.{split_at-append}
use cargos_buildroot.Kconfig.Expand.{
  symbol_maxlength, is_name_byte, split_name, Buffer, strcat, put_name, grow, symval, expand_round,
  expand, sym_expand_string_value,
}

-- A string is text without `$`, and then names with the text behind each.
abbrev pub template : Text → List (Text × Text) → Text
template a [] = a
template a ((name, b) ∷ ps) = a ++ (b'$' ∷ (name ++ template b ps))

-- The same, with the value of each name in its place.
abbrev pub filled : (Text → Text) → Text → List (Text × Text) → Text
filled value a [] = a
filled value a ((name, b) ∷ ps) = a ++ (value name ++ filled value b ps)

abbrev pub is_plain : Text → Bool
is_plain = all_bytes (λ c. not (c == b'$'))

abbrev pub ends_name : Text → Bool
ends_name [] = true
ends_name (c ∷ s) = not (is_name_byte c)

-- The names have name bytes only, and less than 256 of them; the text behind a name has no `$`, and does not go on
-- with the name.
abbrev pub is_template : List (Text × Text) → Bool
is_template [] = true
is_template ((name, b) ∷ ps) =
    all_bytes is_name_byte name
    && ltb (length name) symbol_maxlength
    && is_plain b
    && ends_name b
    && is_template ps

split_at-none : (s : Text) → is_plain s ≡ true → split_at b'$' s ≡ none
unfolding split_at
split_at-none [] h = refl
split_at-none (c ∷ s) h =
    let other : (c == b'$') ≡ false = ground arith in
    rw (other, split_at-none s (ground arith)) refl

split_name_end : (s : Text) → ends_name s ≡ true → split_name s ≡ ([], s)
unfolding split_name
split_name_end [] h = refl
split_name_end (c ∷ s) h = let other : is_name_byte c ≡ false = ground arith in rw other refl

split_name-append :
    (name s : Text)
    → all_bytes is_name_byte name ≡ true
    → ends_name s ≡ true
    → split_name (name ++ s) ≡ (name, s)
unfolding split_name
split_name-append [] s h k = split_name_end s k
split_name-append (c ∷ name) s h k =
    let inside : is_name_byte c ≡ true = ground arith in
    rw (inside, split_name-append name s (ground arith) k) refl

ends_name-template :
    (b : Text) (ps : List (Text × Text)) → ends_name b ≡ true → ends_name (template b ps) ≡ true
ends_name-template [] [] h = refl
ends_name-template [] ((name, b) ∷ ps) h = refl
ends_name-template (c ∷ s) [] h = h
ends_name-template (c ∷ s) ((name, b) ∷ ps) h = h

strcat_fits :
    (res : Buffer) (s : Text)
    → length res.text + length s < res.size
    → strcat res s ≡ some (record res { text = res.text ++ s })
unfolding strcat
strcat_fits res s h =
    let fits : ltb (length res.text + length s) res.size ≡ true = ground arith in rw fits refl

grow_lem : (n : ℕ) (res : Buffer) → ((grow n res).text ≡ res.text) × (n ≤ (grow n res).size)
unfolding grow
grow_lem n res = elim (Bool-cases (ltb res.size n)) [
  | inl e ↦ rw e (refl, omega arith)
  | inr e ↦ rw e (refl, ground arith)
]

put_name_fits : (name : Text) → length name < symbol_maxlength → put_name name ≡ some name
unfolding put_name
put_name_fits name h =
    let fits : ltb (length name) symbol_maxlength ≡ true = ground arith in rw fits refl

-- A round that starts with room for the string in front of the name ends with room for the rest.
expand_round_lem :
    (value : Text → Text) (res : Buffer) (before name src : Text)
    → length res.text + length before < res.size
    → length name < symbol_maxlength
    → (n : ℕ) × (expand_round value res before (name, src)
        ≡ some (record { text = (res.text ++ before) ++ value name; size = n }))
      × (length ((res.text ++ before) ++ value name) + length src < n)
unfolding expand_round
expand_round_lem value res before name src h k =
    let text = res.text ++ before in
    let room = length text + length (value name) + length src + 1 in
    let grown = grow room (record res { text = text }) in
    let (e, le) = grow_lem room (record res { text = text }) in
    let fits : length grown.text + length (value name) < grown.size = rw e (omega arith) in
    (
      grown.size,
      rw (strcat_fits res before h, put_name_fits name k)
          (strcat_fits grown (value name) fits
            ∙ ap (λ t. some (record { text = t ++ value name; size = grown.size })) e),
      omega (arith, length-append text (value name)),
    )

expand_last :
    (value : Text → Text) (fuel : ℕ) (res : Buffer) (src : Text)
    → split_at b'$' src ≡ none
    → expand value (suc fuel) res src ≡ strcat res src
unfolding expand
expand_last value fuel res src e = rw (expand, e) refl

expand_next :
    (value : Text → Text) (fuel : ℕ) (res : Buffer) (src before rest name tail : Text)
    → split_at b'$' src ≡ some (before, rest)
    → split_name rest ≡ (name, tail)
    → expand value (suc fuel) res src
      ≡ (expand_round value res before (name, tail) >>= λ res'. expand value fuel res' tail)
unfolding expand
expand_next value fuel res src before rest name tail e f = rw (expand, e, f) refl

-- The string stays inside the buffer, with its NUL.
abbrev pub Holds : Option Buffer → Text → Type 0
Holds o text = (n : ℕ) × (o ≡ some (record { text = text; size = n })) × (length text < n)

expand-template :
    (value : Text → Text) (fuel : ℕ) (res : Buffer) (a : Text) (ps : List (Text × Text))
    → is_plain a ≡ true
    → is_template ps ≡ true
    → length res.text + length (template a ps) < res.size
    → length (template a ps) < fuel
    → Holds (expand value fuel res (template a ps)) (res.text ++ filled value a ps)
expand-template value zero res a ps h k l f = absurd (omega arith)
expand-template value (suc fuel) res a [] h k l f = (
  res.size,
  expand_last value fuel res a (split_at-none a h) ∙ strcat_fits res a l,
  omega (arith, length-append res.text a),
)
expand-template value (suc fuel) res a ((name, b) ∷ ps) h k l f =
    let tail = template b ps in
    let names : all_bytes is_name_byte name ≡ true = ground arith in
    let short : length name < symbol_maxlength = ground arith in
    let plain : is_plain b ≡ true = ground arith in
    let ends : ends_name b ≡ true = ground arith in
    let rest : is_template ps ≡ true = ground arith in
    let whole = length-append a (b'$' ∷ (name ++ tail)) in
    let behind = length-append name tail in
    let (n, e, room) = expand_round_lem value res a name tail (omega (arith, whole)) short in
    let next =
      expand_next value fuel res (template a ((name, b) ∷ ps)) a (name ++ tail) name tail
        (split_at-append b'$' a (name ++ tail) h)
        (split_name-append name tail names (ends_name-template b ps ends)) in
    let res' : Buffer = record { text = (res.text ++ a) ++ value name; size = n } in
    let (m, g, le) =
      expand-template value fuel res' b ps plain rest room (omega (arith, whole, behind)) in
    let text : ((res.text ++ a) ++ value name) ++ filled value b ps
        ≡ res.text ++ (a ++ (value name ++ filled value b ps)) =
      append_assoc (res.text ++ a) (value name) (filled value b ps)
      ∙ append_assoc res.text a (value name ++ filled value b ps) in
    subst (Holds (expand value (suc fuel) res (template a ((name, b) ∷ ps)))) text
      (m, rw next (rw e g), le)

-- The result is the string with each name replaced by the value of its symbol, or by nothing if there is none. There
-- is a result, so no byte is written behind the buffer, which has been extended as needed, nor behind the array for
-- a name, as long as each name has less than 256 bytes.
pub sym_expand_string_value_fills :
    (t : Table) (st : Store) (a : Text) (ps : List (Text × Text))
    → is_plain a ≡ true
    → is_template ps ≡ true
    → Holds (sym_expand_string_value t st (template a ps)) (filled (symval t st) a ps)
unfolding sym_expand_string_value
sym_expand_string_value_fills t st a ps h k =
    expand-template (symval t st) (suc (length (template a ps)))
      (record { text = []; size = length (template a ps) + 1 }) a ps h k (omega arith) (omega arith)
