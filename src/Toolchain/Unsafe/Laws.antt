-- ===== src/Toolchain/Unsafe/Laws.antt =====
-- toolchain/toolchain-wrapper.c: what the search for unsafe paths finds, and the paranoid mode.
use cargos_buildroot.Base.{
  ◌≡◌, refl, ◌∙◌, Bool, true, false, List, [], ◌∷◌, ◌++◌, Text, starts_with, if◌then◌else◌,
  Bool-cases, inl, inr,
}
use mathlib.Core.List.{append_assoc, append-nil}
use cargos_buildroot.Toolchain.Unsafe.{
  unsafe_paths, unsafe_opts, Message, joined, separate, message, Report, add, check_paths,
  check_unsafe_path, scan, Form, other, alone, with_path, form, unless_stopped, examine, check_next,
  clean_report, check_args,
}

-- The report extended by messages, and the report of a program that exits at the first one.
abbrev extend : List Message → Report → Report
extend ms r = record r { messages = r.messages ++ ms }

abbrev pub first_only : List Message → Report
first_only [] = clean_report
first_only (m ∷ ms) = record { messages = m ∷ []; stopped = true }

-- One message for each unsafe path that the path starts with.
abbrev pub found : List Text → Message → Text → List Message
found [] m path = []
found (p ∷ ps) m path = if starts_with p path then m ∷ found ps m path else found ps m path

check_paths_lenient :
    (ps : List Text) (arg path : Text) (has : Bool) (r : Report)
    → check_paths ps arg path false has r ≡ extend (found ps (message arg path has) path) r
unfolding check_paths
check_paths_lenient [] arg path has r = rw append-nil
check_paths_lenient (p ∷ ps) arg path has r = elim (Bool-cases (starts_with p path)) [
  | inl e ↦
      rw e (check_paths_lenient ps arg path has (add (message arg path has) r) ∙ simp append_assoc)
  | inr e ↦ rw e (check_paths_lenient ps arg path has r)
]

check_paths_paranoid :
    (ps : List Text) (arg path : Text) (has : Bool)
    → check_paths ps arg path true has clean_report
      ≡ first_only (found ps (message arg path has) path)
unfolding check_paths
check_paths_paranoid [] arg path has = refl
check_paths_paranoid (p ∷ ps) arg path has = elim (Bool-cases (starts_with p path)) [
  | inl e ↦ rw e refl
  | inr e ↦ rw e (check_paths_paranoid ps arg path has)
]

-- The messages about the arguments from a position on.
abbrev pub unsafe : Message → Text → List Message
unsafe = found unsafe_paths

abbrev pub about : Form → Text → List Message → List Message → List Message
about other cur same advance = same
about alone cur same advance = advance
about (with_path path) cur same advance = unsafe (joined cur) path ++ same

unfoldable pub warnings : List Text → Text → List Text → List Message
warnings [] cur [] = []
warnings [] cur (next ∷ rest) = warnings unsafe_opts next rest
warnings (o ∷ os) cur [] = about (form o cur) cur (warnings os cur []) []
warnings (o ∷ os) cur (next ∷ rest) =
    about (form o cur) cur (warnings os cur (next ∷ rest))
      (unsafe (separate cur next) next ++ warnings os next rest)

check_lenient :
    (arg path : Text) (has : Bool) (r : Report)
    → check_unsafe_path arg path false has r ≡ extend (unsafe (message arg path has) path) r
unfolding check_unsafe_path
check_lenient = check_paths_lenient unsafe_paths

check_paranoid :
    (arg path : Text) (has : Bool)
    → check_unsafe_path arg path true has clean_report
      ≡ first_only (unsafe (message arg path has) path)
unfolding check_unsafe_path
check_paranoid = check_paths_paranoid unsafe_paths

unless_stopped_running :
    (x : Bool) (r : Report) (next : Report → Report) → x ≡ false → unless_stopped x r next ≡ next r
unless_stopped_running true r next e = cc
unless_stopped_running false r next e = refl

-- One step of each loop, from what the rest of the loop does.
check_next_lenient :
    (cur path : Text) (ms : List Message) (next : Report → Report) (r : Report)
    → ((r' : Report) → r'.stopped ≡ false → next r' ≡ extend ms r')
    → r.stopped ≡ false
    → check_next cur path false next r ≡ extend (unsafe (separate cur path) path ++ ms) r
check_next_lenient cur path ms next r h e = rw (check_lenient cur path false r) (
    unless_stopped_running r.stopped _ next e
    ∙ h (extend (unsafe (separate cur path) path) r) e
    ∙ simp append_assoc)

examine_lenient :
    (f : Form) (cur : Text) (ms ns : List Message) (same advance : Report → Report) (r : Report)
    → ((r' : Report) → r'.stopped ≡ false → same r' ≡ extend ms r')
    → ((r' : Report) → r'.stopped ≡ false → advance r' ≡ extend ns r')
    → r.stopped ≡ false
    → examine f cur false same advance r ≡ extend (about f cur ms ns) r
examine_lenient other cur ms ns same advance r h k e = h r e
examine_lenient alone cur ms ns same advance r h k e = k r e
examine_lenient (with_path path) cur ms ns same advance r h k e =
    rw (check_lenient cur path true r) (
      unless_stopped_running r.stopped _ same e
      ∙ h (extend (unsafe (joined cur) path) r) e
      ∙ simp append_assoc)

scan_lenient :
    (os : List Text) (cur : Text) (rest : List Text) (r : Report)
    → r.stopped ≡ false
    → scan false os cur rest r ≡ extend (warnings os cur rest) r
unfolding scan warnings
scan_lenient [] cur [] r h = rw append-nil
scan_lenient [] cur (next ∷ rest) r h = scan_lenient unsafe_opts next rest r h
scan_lenient (o ∷ os) cur [] r h =
    examine_lenient (form o cur) cur _ [] _ _ r (scan_lenient os cur []) (λ r' e. rw append-nil) h
scan_lenient (o ∷ os) cur (next ∷ rest) r h =
    examine_lenient (form o cur) cur _ _ _ _ r (scan_lenient os cur (next ∷ rest))
      (λ r' e.
        check_next_lenient cur next (warnings os next rest) _ r' (scan_lenient os next rest) e)
      h

first_only-append :
    (ms ns : List Message) (next : Report → Report)
    → next clean_report ≡ first_only ns
    → unless_stopped (first_only ms).stopped (first_only ms) next ≡ first_only (ms ++ ns)
first_only-append [] ns next h = h
first_only-append (m ∷ ms) ns next h = refl

check_next_paranoid :
    (cur path : Text) (ms : List Message) (next : Report → Report)
    → next clean_report ≡ first_only ms
    → check_next cur path true next clean_report
      ≡ first_only (unsafe (separate cur path) path ++ ms)
check_next_paranoid cur path ms next h =
    rw (check_paranoid cur path false)
      (first_only-append (unsafe (separate cur path) path) ms next h)

examine_paranoid :
    (f : Form) (cur : Text) (ms ns : List Message) (same advance : Report → Report)
    → same clean_report ≡ first_only ms
    → advance clean_report ≡ first_only ns
    → examine f cur true same advance clean_report ≡ first_only (about f cur ms ns)
examine_paranoid other cur ms ns same advance h k = h
examine_paranoid alone cur ms ns same advance h k = k
examine_paranoid (with_path path) cur ms ns same advance h k =
    rw (check_paranoid cur path true) (first_only-append (unsafe (joined cur) path) ms same h)

pub scan_paranoid :
    (os : List Text) (cur : Text) (rest : List Text)
    → scan true os cur rest clean_report ≡ first_only (warnings os cur rest)
unfolding scan warnings
scan_paranoid [] cur [] = refl
scan_paranoid [] cur (next ∷ rest) = scan_paranoid unsafe_opts next rest
scan_paranoid (o ∷ os) cur [] =
    examine_paranoid (form o cur) cur _ [] _ _ (scan_paranoid os cur []) refl
scan_paranoid (o ∷ os) cur (next ∷ rest) =
    examine_paranoid (form o cur) cur _ _ _ _ (scan_paranoid os cur (next ∷ rest))
      (check_next_paranoid cur next (warnings os next rest) _ (scan_paranoid os next rest))

-- Without the paranoid mode the check never exits. With it the check prints the first of the
-- messages that it prints without, and exits; it exits only if there is one.
pub check_args_paranoid :
    (args : List Text)
    → ((check_args false args).stopped ≡ false)
      × (check_args true args ≡ first_only (check_args false args).messages)
unfolding check_args
check_args_paranoid [] = (refl, refl)
check_args_paranoid (a ∷ args) =
    rw (scan_lenient unsafe_opts a args clean_report refl, scan_paranoid unsafe_opts a args)
      (refl, refl)
