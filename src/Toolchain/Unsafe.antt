-- ===== src/Toolchain/Unsafe.antt =====
-- toolchain/toolchain-wrapper.c: the search for unsafe header and library paths.
pub mod Laws
pub mod Complete
use cargos_buildroot.Base.{
  Bool, true, false, ◌&&◌, if◌then◌else◌, List, [], ◌∷◌, ◌++◌, Text, bytes, length, drop,
  starts_with, text_eq,
}

abbrev pub unsafe_paths : List Text
unsafe_paths =
    bytes "/lib"
    ∷ bytes "/usr/include"
    ∷ bytes "/usr/lib"
    ∷ bytes "/usr/local/include"
    ∷ bytes "/usr/local/lib"
    ∷ []

abbrev pub unsafe_opts : List Text
unsafe_opts = bytes "-I" ∷ bytes "-idirafter" ∷ bytes "-iquote" ∷ bytes "-isystem" ∷ bytes "-L" ∷ []

-- What is printed: the argument, and the path where that is an argument of its own.
pub data Message : Type 0 where
  joined : Text → Message
  separate : Text → Text → Message

abbrev pub message : Text → Text → Bool → Message
message arg path true = joined arg
message arg path false = separate arg path

-- The messages so far, and whether `exit(1)` was called.
pub record Report : Type 0 where
  pub messages : List Message
  pub stopped : Bool

abbrev pub add : Message → Report → Report
add m r = record r { messages = r.messages ++ (m ∷ []) }

-- The loop of `check_unsafe_path` over the unsafe paths.
unfoldable pub check_paths : List Text → Text → Text → Bool → Bool → Report → Report
unfolding starts_with
check_paths [] arg path paranoid has_path r = r
check_paths (p ∷ ps) arg path paranoid has_path r =
    let r' = if starts_with p path then add (message arg path has_path) r else r in
    let next = check_paths ps arg path paranoid has_path r' in
    if starts_with p path && paranoid then record r' { stopped = true } else next

unfoldable pub check_unsafe_path : Text → Text → Bool → Bool → Report → Report
unfolding check_paths
check_unsafe_path = check_paths unsafe_paths

-- What `strncmp(argv[i], opt->str, opt->len)` and `argv[i][opt->len] == 0` tell: the argument does
-- not start with the option, is the option, or holds a path behind it.
pub data Form : Type 0 where
  other alone : Form
  with_path : Text → Form

unfoldable pub form : Text → Text → Form
unfolding starts_with text_eq
form opt arg =
    if starts_with opt arg
    then if text_eq opt arg then alone else with_path (drop (length opt) arg)
    else other

-- A report that is stopped ends the program.
abbrev pub unless_stopped : Bool → Report → (Report → Report) → Report
unless_stopped true r next = r
unless_stopped false r next = next r

-- The body of the inner loop: `same` goes on with argv[i], `advance` with the argument behind it.
abbrev pub examine : Form → Text → Bool → (Report → Report) → (Report → Report) → Report → Report
examine other cur paranoid same advance r = same r
examine alone cur paranoid same advance r = advance r
examine (with_path path) cur paranoid same advance r =
    let r' = check_unsafe_path cur path paranoid true r in unless_stopped r'.stopped r' same

-- `argv[i]` is the path of the option `cur`.
abbrev pub check_next : Text → Text → Bool → (Report → Report) → Report → Report
check_next cur path paranoid next r =
    let r' = check_unsafe_path cur path paranoid false r in unless_stopped r'.stopped r' next

-- The two loops of `main`, at the option list `opts` and the argument `cur` = argv[i], with `rest`
-- behind it. When the path is an argument of its own, i advances, and the options that are left are
-- compared with the path. With no argument behind the option both loops end.
unfoldable pub scan : Bool → List Text → Text → List Text → Report → Report
unfolding check_unsafe_path form
scan paranoid [] cur [] r = r
scan paranoid [] cur (next ∷ rest) r = scan paranoid unsafe_opts next rest r
scan paranoid (o ∷ os) cur [] r =
    examine (form o cur) cur paranoid (λ r'. scan paranoid os cur [] r') (λ r'. r') r
scan paranoid (o ∷ os) cur (next ∷ rest) r =
    examine (form o cur) cur paranoid (λ r'. scan paranoid os cur (next ∷ rest) r')
      (check_next cur next paranoid (λ r'. scan paranoid os next rest r')) r

abbrev pub clean_report : Report
clean_report = record { messages = []; stopped = false }

-- The check of argv[1], argv[2], …
unfoldable pub check_args : Bool → List Text → Report
unfolding scan
check_args paranoid [] = clean_report
check_args paranoid (a ∷ args) = scan paranoid unsafe_opts a args clean_report
