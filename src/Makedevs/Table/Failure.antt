-- ===== src/Makedevs/Table/Failure.antt =====
-- package/makedevs/makedevs.c: the lines of the table that set the exit status.
use cargos_buildroot.Base.{
  ℕ, ◌≡◌, refl, Bool, true, false, ◌&&◌, some, Text, none, ◌⊎◌, inl, inr, Bool-cases, Option-cases,
  sym, ◌∙◌, ap, arith,
}
use cargos_buildroot.Makedevs.System.{System, Entry}
use cargos_buildroot.Makedevs.Lines.{concat_path_file}
use cargos_buildroot.Makedevs.Entry.{enter}
use cargos_buildroot.Makedevs.Table.{
  State, is_too_large, is_blank, is_comment, gid_of, uid_of, read_line, read_entry, enter_entry,
  enter_xattr, invalid_line,
}

-- A line that fails: it is no entry, or one with a number that is too large, and no comment or empty line either; or
-- it is an entry that could not be made.
pub data LineFails {W : Type 0} (sys : System W) (rootdir line : Text) (st : State W) : Type 0 where
  no_entry :
      sys.sscanf_xattr line ≡ none
      → sys.sscanf_entry line ≡ none
      → is_blank line ≡ false
      → LineFails sys rootdir line st
  too_large :
      {e : Entry}
      → sys.sscanf_xattr line ≡ none
      → sys.sscanf_entry line ≡ some e
      → is_too_large e ≡ true
      → is_blank line ≡ false
      → LineFails sys rootdir line st
  not_made :
      {e : Entry} {uid gid : ℕ}
      → sys.sscanf_xattr line ≡ none
      → sys.sscanf_entry line ≡ some e
      → is_too_large e ≡ false
      → is_comment e.name ≡ false
      → gid_of sys e ≡ some gid
      → uid_of sys e ≡ some uid
      → (enter sys e (concat_path_file rootdir e.name) uid gid st.world).0 ≡ false
      → LineFails sys rootdir line st

module _ {W : Type 0} (sys : System W) (rootdir : Text) where
  -- A line either fails and sets the status, or leaves it as it is.
  abbrev pub Sets : Text → State W → State W → Type 0
  Sets line st st' =
      (LineFails sys rootdir line st × (st'.ok ≡ false))
      ⊎ ((¬ LineFails sys rootdir line st) × (st'.ok ≡ st.ok))

  enter_xattr_keeps :
      (extended : Bool) (xattr : Text) (st st' : State W)
      → enter_xattr extended sys xattr st ≡ some st'
      → st'.ok ≡ st.ok
  unfolding enter_xattr
  enter_xattr_keeps false xattr st st' h = ground arith
  enter_xattr_keeps true xattr st st' h = ground arith

  not_failing :
      (line : Text) (st : State W) {x : Text}
      → sys.sscanf_xattr line ≡ some x
      → ¬ LineFails sys rootdir line st
  not_failing line st h (no_entry x e b) = cc
  not_failing line st h (too_large x e l b) = cc
  not_failing line st h (not_made x e l c g u k) = cc

  entry_made :
      (line : Text) (e : Entry) (uid gid : ℕ) (st : State W)
      → sys.sscanf_entry line ≡ some e
      → is_too_large e ≡ false
      → is_comment e.name ≡ false
      → gid_of sys e ≡ some gid
      → uid_of sys e ≡ some uid
      → (enter sys e (concat_path_file rootdir e.name) uid gid st.world).0 ≡ true
      → ¬ LineFails sys rootdir line st
  entry_made line e uid gid st s l c g u k (no_entry x e' b) = cc
  entry_made line e uid gid st s l c g u k (too_large x e' l' b) = cc
  entry_made line e uid gid st s l c g u k (not_made x e' l' c' g' u' k') = cc

  invalid_line-Sets :
      (line : Text) (st st' : State W)
      → (is_blank line ≡ false → LineFails sys rootdir line st)
      → (is_blank line ≡ true → ¬ LineFails sys rootdir line st)
      → invalid_line line st ≡ st'
      → Sets line st st'
  unfolding invalid_line
  invalid_line-Sets line st st' f n h = elim (Bool-cases (is_blank line)) [
    | inl b ↦ inr (n b, ap (λ t. t.ok) (sym h) ∙ rw (invalid_line, b) refl)
    | inr b ↦ inl (f b, ap (λ t. t.ok) (sym h) ∙ rw (invalid_line, b) refl)
  ]

  enter_entry-Sets :
      (line : Text) (e : Entry) (st st' : State W)
      → sys.sscanf_xattr line ≡ none
      → sys.sscanf_entry line ≡ some e
      → is_too_large e ≡ false
      → is_comment e.name ≡ false
      → enter_entry sys rootdir e st ≡ some st'
      → Sets line st st'
  unfolding enter_entry
  enter_entry-Sets line e st st' x s l c h = elim (Option-cases (gid_of sys e)) [
    | inl g ↦ let stops : enter_entry sys rootdir e st ≡ none = rw (enter_entry, g) refl in cc
    | inr (gid, g) ↦ elim (Option-cases (uid_of sys e)) [
      | inl u ↦ let stops : enter_entry sys rootdir e st ≡ none = rw (enter_entry, g, u) refl in cc
      | inr (uid, u) ↦
          let r = enter sys e (concat_path_file rootdir e.name) uid gid st.world in
          let ends : st'.ok ≡ (st.ok && r.0) = ground (arith, h, g, u) in
          elim (Bool-cases r.0) [
            | inr b ↦ inl (not_made x s l c g u b, ground (arith, ends, b))
            | inl b ↦
                let other : ¬ LineFails sys rootdir line st =
                  λ f. entry_made line e uid gid st s l c g u b f in
                inr (other, ground (arith, ends, b))
          ]
    ]
  ]

  pub some_same : (a b : State W) → some a ≡ some b → a ≡ b
  some_same a b h = cc

  blank_fine :
      (line : Text) (st : State W)
      → sys.sscanf_entry line ≡ none
      → is_blank line ≡ true
      → ¬ LineFails sys rootdir line st
  blank_fine line st s b (no_entry x e b') = cc
  blank_fine line st s b (too_large x e l b') = cc
  blank_fine line st s b (not_made x e l c g u k) = cc

  large_blank_fine :
      (line : Text) (st : State W) (e : Entry)
      → sys.sscanf_entry line ≡ some e
      → is_too_large e ≡ true
      → is_blank line ≡ true
      → ¬ LineFails sys rootdir line st
  large_blank_fine line st e s t b (no_entry x e' b') = cc
  large_blank_fine line st e s t b (too_large x e' l b') = cc
  large_blank_fine line st e s t b (not_made x e' l c g u k) = cc

  comment_fine :
      (line : Text) (st : State W) (e : Entry)
      → sys.sscanf_entry line ≡ some e
      → is_too_large e ≡ false
      → is_comment e.name ≡ true
      → ¬ LineFails sys rootdir line st
  comment_fine line st e s t b (no_entry x e' b') = cc
  comment_fine line st e s t b (too_large x e' l b') = cc
  comment_fine line st e s t b (not_made x e' l c g u k) = cc

  read_entry-Sets :
      (line : Text) (st st' : State W)
      → sys.sscanf_xattr line ≡ none
      → read_entry sys rootdir line st ≡ some st'
      → Sets line st st'
  unfolding read_entry
  read_entry-Sets line st st' x h = elim (Option-cases (sys.sscanf_entry line)) [
    | inl s ↦
        invalid_line-Sets line st st' (λ b. no_entry x s b) (λ b. blank_fine line st s b)
          (some_same (invalid_line line st) st' (rw (read_entry, s) at h))
    | inr (e, s) ↦ elim (Bool-cases (is_too_large e)) [
      | inl t ↦
          invalid_line-Sets line st st' (λ b. too_large x s t b)
            (λ b. large_blank_fine line st e s t b)
            (some_same (invalid_line line st) st' (rw (read_entry, s, t) at h))
      | inr t ↦ elim (Bool-cases (is_comment e.name)) [
        | inl c ↦
            let same : some st ≡ some st' = rw (read_entry, s, t, c) at h in
            inr (comment_fine line st e s t c, ap (λ u. u.ok) (sym (some_same st st' same)))
        | inr c ↦ enter_entry-Sets line e st st' x s t c (rw (read_entry, s, t, c) at h)
      ]
    ]
  ]

  pub read_line-Sets :
      (extended : Bool) (line : Text) (st st' : State W)
      → read_line extended sys rootdir line st ≡ some st'
      → Sets line st st'
  unfolding read_line read_entry
  read_line-Sets extended line st st' h = elim (Option-cases (sys.sscanf_xattr line)) [
    | inr (xattr, x) ↦
        inr
          (not_failing line st x, enter_xattr_keeps extended xattr st st' (rw (read_line, x) at h))
    | inl x ↦ read_entry-Sets line st st' x (rw (read_line, x) at h)
  ]
