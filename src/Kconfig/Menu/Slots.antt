-- ===== src/Kconfig/Menu/Slots.antt =====
-- support/kconfig/menu.c: a pointer to a menu, written through its place.
use cargos_buildroot.Base.{
  ℕ, ◌≤◌, ◌<◌, ◌≡◌, ◌≢◌, refl, ap, sym, ◌∙◌, true, false, Option, arith, if◌then◌else◌, ◌==◌,
  Bool-cases, inl, inr,
}
use cargos_buildroot.Kconfig.Menu.{Links, Slot, next_of, list_of, write_slot, put_links}
use cargos_buildroot.Kconfig.Menu.Forest.{first}

abbrev pub read_slot : Slot → (ℕ → Links) → Option ℕ
read_slot (next_of m) menus = (menus m).next
read_slot (list_of m) menus = (menus m).list

abbrev pub menu_of : Slot → ℕ
menu_of (next_of m) = m
menu_of (list_of m) = m

-- Below `n` the links are those of before but for what the slot holds.
abbrev pub Kept : Slot → ℕ → (ℕ → Links) → (ℕ → Links) → Type 0
Kept slot n menus menus' =
    (a : ℕ) → a < n → menus' a ≡ write_slot slot (read_slot slot menus') menus a

pub write_slot_other :
    (slot : Slot) (v : Option ℕ) (menus : ℕ → Links) (a : ℕ)
    → a ≢ menu_of slot
    → write_slot slot v menus a ≡ menus a
unfolding write_slot
write_slot_other (next_of m) v menus a h =
    let other : (a == m) ≡ false = ground arith in rw other refl
write_slot_other (list_of m) v menus a h =
    let other : (a == m) ≡ false = ground arith in rw other refl

pub read_slot-write_slot :
    (slot : Slot) (v : Option ℕ) (menus : ℕ → Links) → read_slot slot (write_slot slot v menus) ≡ v
unfolding write_slot
read_slot-write_slot (next_of m) v menus =
    let same : (m == m) ≡ true = ground arith in rw (read_slot, same) refl
read_slot-write_slot (list_of m) v menus =
    let same : (m == m) ≡ true = ground arith in rw (read_slot, same) refl

pub write_slot_same :
    (slot : Slot) (menus : ℕ → Links) (a : ℕ)
    → menus a ≡ write_slot slot (read_slot slot menus) menus a
unfolding write_slot
write_slot_same (next_of m) menus a = elim (Bool-cases (a == m)) [
  | inl e ↦ let same : a ≡ m = ground arith in rw (e, sym same) refl
  | inr e ↦ rw e refl
]
write_slot_same (list_of m) menus a = elim (Bool-cases (a == m)) [
  | inl e ↦ let same : a ≡ m = ground arith in rw (e, sym same) refl
  | inr e ↦ rw e refl
]

pub write_slot_cong :
    (slot : Slot) (v : Option ℕ) (menus menus' : ℕ → Links) (a : ℕ)
    → menus a ≡ menus' a
    → write_slot slot v menus a ≡ write_slot slot v menus' a
unfolding write_slot
write_slot_cong (next_of m) v menus menus' a h =
    ap (λ l. if a == m then record l { next = v } else l) h
write_slot_cong (list_of m) v menus menus' a h =
    ap (λ l. if a == m then record l { list = v } else l) h

pub read_slot_cong :
    (slot : Slot) (menus menus' : ℕ → Links)
    → menus (menu_of slot) ≡ menus' (menu_of slot)
    → read_slot slot menus ≡ read_slot slot menus'
read_slot_cong (next_of m) menus menus' h = ap (λ l. l.next) h
read_slot_cong (list_of m) menus menus' h = ap (λ l. l.list) h

pub put_links_other :
    (m a : ℕ) (l : Links) (menus : ℕ → Links) → a ≢ m → put_links m l menus a ≡ menus a
put_links_other m a l menus h = let other : (a == m) ≡ false = ground arith in rw other refl

pub put_links_self : (m : ℕ) (l : Links) (menus : ℕ → Links) → put_links m l menus m ≡ l
put_links_self m l menus = let same : (m == m) ≡ true = ground arith in rw same refl

-- What is kept in two steps, where the second starts at a slot of a newer menu.
pub Kept-trans :
    (slot slot' : Slot) (n n' : ℕ) (menus menus' menus'' : ℕ → Links)
    → menu_of slot < n
    → n ≤ menu_of slot'
    → n ≤ n'
    → Kept slot n menus menus'
    → Kept slot' n' menus' menus''
    → (read_slot slot menus'' ≡ read_slot slot menus') × Kept slot n menus menus''
Kept-trans slot slot' n n' menus menus' menus'' h k le first second =
    let same : (a : ℕ) → a < n → menus'' a ≡ menus' a = λ a lt.
      second a (omega arith)
      ∙ write_slot_other slot' (read_slot slot' menus'') menus' a (omega arith) in
    let read = read_slot_cong slot menus'' menus' (same (menu_of slot) h) in
    (read, λ a lt. same a lt ∙ (rw read (first a lt)))

pub write_slot-parent :
    (slot : Slot) (v : Option ℕ) (menus : ℕ → Links) (a : ℕ)
    → (write_slot slot v menus a).parent ≡ (menus a).parent
unfolding write_slot
write_slot-parent (next_of m) v menus a = ground arith
write_slot-parent (list_of m) v menus a = ground arith

pub write_slot-list :
    (m : ℕ) (v : Option ℕ) (menus : ℕ → Links) (a : ℕ)
    → (write_slot (next_of m) v menus a).list ≡ (menus a).list
unfolding write_slot
write_slot-list m v menus a = ground arith

pub write_slot-next :
    (m : ℕ) (v : Option ℕ) (menus : ℕ → Links) (a : ℕ)
    → (write_slot (list_of m) v menus a).next ≡ (menus a).next
unfolding write_slot
write_slot-next m v menus a = ground arith
