-- ===== src/Kconfig/Config/Line/Laws.antt =====
-- support/kconfig/confdata.c: the reader of lines stays in its buffer, and understands the lines that are
-- written for a symbol.
use cargos_buildroot.Base.{
  ℕ, suc, ◌+◌, ◌*◌, ◌<◌, ◌≡◌, refl, ap, ◌∙◌, Bool, true, false, ◌&&◌, ◌||◌, not, none, some, [],
  ◌∷◌, ◌++◌, Text, bytes, drop-length-append, starts_with, starts_with-append, ◌==◌, leb, ltb,
  arith, Bool-cases, inl, inr,
}
use mathlib.Core.List.{append_assoc}
use cargos_buildroot.Kconfig.Strings.{all_bytes}
use cargos_buildroot.Kconfig.Config.Line.{
  add_byte, getline, compat_getline, split_at, unset, assigns, not_set, comment_says, chomp_cr,
  value_text, assignment_says, is_comment_line, line_says,
}

-- A byte is stored in the buffer only at a place inside it.
pub add_byte-lt :
    (realloc : ℕ → Bool) (slen n n' : ℕ) → add_byte realloc slen n ≡ some n' → slen < n'
unfolding add_byte
add_byte-lt realloc slen n n' h = ground arith

-- `realloc` never fails.
abbrev pub Grows : (ℕ → Bool) → Type 0
Grows realloc = (m : ℕ) → realloc m ≡ true

add_byte-some :
    (realloc : ℕ → Bool)
    → Grows realloc
    → (slen n : ℕ) → (n' : ℕ) × (add_byte realloc slen n ≡ some n')
unfolding add_byte
add_byte-some realloc g slen n = elim (Bool-cases (ltb n (suc slen))) [
  | inl e ↦ ((suc slen + 15) * 2, rw (e, g ((suc slen + 15) * 2)) refl)
  | inr e ↦ (n, rw e refl)
]

-- A byte that is not a newline or carriage return.
abbrev pub in_line : ℕ → Bool
in_line c = not (c == b'\n') && not (c == 13)

getline_reads :
    (realloc : ℕ → Bool)
    → Grows realloc
    → (line : Text) (slen n : ℕ) (l rest : Text) → all_bytes (λ c. not (c == b'\n')) l ≡ true
    → (n' : ℕ) × (getline realloc line slen n (l ++ (b'\n' ∷ rest))
        ≡ some (record { text = line ++ (l ++ (b'\n' ∷ [])); rest = rest; size = n' }))
unfolding getline
getline_reads realloc g line slen n [] rest h =
    let (n', e) = add_byte-some realloc g slen n in
    let (n'', f) = add_byte-some realloc g (suc slen) n' in (n'', rw (e, f) refl)
getline_reads realloc g line slen n (c ∷ l) rest h =
    let (n', e) = add_byte-some realloc g slen n in
    let inside : (c == b'\n') ≡ false = ground arith in
    let (n'', f) = getline_reads realloc g (line ++ (c ∷ [])) (suc slen) n' l rest (ground arith) in
    (
      n'',
      rw (inside, e)
          (f
            ∙ ap (λ t. some (record { text = t; rest = rest; size = n'' }))
                (append_assoc line (c ∷ []) (l ++ (b'\n' ∷ [])))),
    )

-- A line of the file is read to its newline, whatever the size of the buffer.
pub compat_getline_reads :
    (realloc : ℕ → Bool)
    → Grows realloc
    → (n : ℕ) (l rest : Text) → all_bytes (λ c. not (c == b'\n')) l ≡ true
    → (n' : ℕ) × (compat_getline realloc n (l ++ (b'\n' ∷ rest))
        ≡ some (record { text = l ++ (b'\n' ∷ []); rest = rest; size = n' }))
unfolding compat_getline
compat_getline_reads realloc g n l rest h = getline_reads realloc g [] 0 n l rest h

-- At the end of the file there is no line.
pub compat_getline_end :
    (realloc : ℕ → Bool) → Grows realloc → (n : ℕ) → compat_getline realloc n [] ≡ none
unfolding compat_getline getline
compat_getline_end realloc g n = let (n', e) = add_byte-some realloc g 0 n in rw e refl

pub split_at-append :
    (c : ℕ) (s rest : Text)
    → all_bytes (λ x. not (x == c)) s ≡ true
    → split_at c (s ++ (c ∷ rest)) ≡ some (s, rest)
unfolding split_at
split_at-append c [] rest h = ground arith
split_at-append c (x ∷ s) rest h =
    let other : (x == c) ≡ false = ground arith in
    rw (other, split_at-append c s rest (ground arith)) refl

chomp_cr_line : (s : Text) → all_bytes in_line s ≡ true → chomp_cr s ≡ s
unfolding chomp_cr
chomp_cr_line [] h = refl
chomp_cr_line (c ∷ []) h = ground arith
chomp_cr_line (c ∷ d ∷ s) h = ap (λ t. c ∷ t) (chomp_cr_line (d ∷ s) (ground arith))

-- A byte of a symbol's name.
abbrev pub in_name : ℕ → Bool
in_name c = (leb 48 c && leb c 57) || (leb 65 c && leb c 90) || (leb 97 c && leb c 122) || c == 95

pub all_bytes_mono :
    (p q : ℕ → Bool)
    → ((c : ℕ) → p c ≡ true → q c ≡ true)
    → (s : Text) → all_bytes p s ≡ true
    → all_bytes q s ≡ true
all_bytes_mono p q k [] h = refl
all_bytes_mono p q k (c ∷ s) h = ground (arith, k c, all_bytes_mono p q k s)

pub all_bytes-append :
    (p : ℕ → Bool) (s t : Text)
    → all_bytes p s ≡ true
    → all_bytes p t ≡ true
    → all_bytes p (s ++ t) ≡ true
all_bytes-append p [] t h k = k
all_bytes-append p (c ∷ s) t h k = ground (arith, all_bytes-append p s t)

not_comment :
    (s t : Text) (c : ℕ)
    → all_bytes in_name s ≡ true
    → (c == b'#') ≡ false
    → is_comment_line (s ++ (c ∷ t)) ≡ false
unfolding is_comment_line
not_comment [] t c h k = k
not_comment (d ∷ s) t c h k = ground arith

value_text-line : (v : Text) → all_bytes in_line v ≡ true → value_text (v ++ (b'\n' ∷ [])) ≡ v
unfolding value_text
value_text-line v h =
    let plain = all_bytes_mono in_line (λ c. not (c == b'\n')) (λ c q. ground arith) v h in
    rw (value_text, split_at-append b'\n' v [] plain) (chomp_cr_line v h)

module _ (prefix name : Text) (p : all_bytes in_name prefix ≡ true)
    (q : all_bytes in_name name ≡ true) where
  -- The line that assigns a value.
  pub line_says-assigns :
      (v : Text)
      → all_bytes in_line v ≡ true
      → line_says prefix (prefix ++ (name ++ (b'=' ∷ (v ++ (b'\n' ∷ []))))) ≡ assigns name v
  unfolding line_says assignment_says
  line_says-assigns v h =
      let tail = v ++ (b'\n' ∷ []) in
      let plain = all_bytes_mono in_name (λ c. not (c == b'=')) (λ c k. ground arith) name q in
      let head : is_comment_line (prefix ++ (name ++ (b'=' ∷ tail))) ≡ false =
        rw⁻¹ (append_assoc prefix name (b'=' ∷ tail)) (
          not_comment (prefix ++ name) tail b'=' (all_bytes-append in_name prefix name p q) refl) in
      rw
        (
          head,
          starts_with-append prefix (name ++ (b'=' ∷ tail)),
          drop-length-append prefix (name ++ (b'=' ∷ tail)),
          split_at-append b'=' name tail plain,
          value_text-line v h,
        )
        refl

  -- The line that says that the symbol is not set.
  pub line_says-unset :
      line_says prefix (bytes "# " ++ (prefix ++ (name ++ (32 ∷ (not_set ++ (b'\n' ∷ []))))))
      ≡ unset name
  unfolding line_says comment_says starts_with
  line_says-unset =
      let tail = not_set ++ (b'\n' ∷ []) in
      let plain = all_bytes_mono in_name (λ c. not (c == b' ')) (λ c k. ground arith) name q in
      rw
        (
          starts_with-append prefix (name ++ (32 ∷ tail)),
          drop-length-append prefix (name ++ (32 ∷ tail)),
          split_at-append b' ' name tail plain,
        )
        refl
