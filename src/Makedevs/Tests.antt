-- ===== src/Makedevs/Tests.antt =====
-- package/makedevs/makedevs.c: runs at concrete tables, on a file system that records the calls.
use cargos_buildroot.Base.{
  suc, ◌+◌, ◌*◌, ◌≡◌, ◌⊎◌, ◌==◌, if◌then◌else◌, ℕ, refl, true, false, Option, none, some, List, [],
  ◌∷◌, ◌++◌, Text, bytes, length,
}
use cargos_buildroot.Makedevs.System.{System, Entry, created}
use cargos_buildroot.Makedevs.Lines.{bb_get_chomped_line_from_file}
use cargos_buildroot.Makedevs.Lines.Laws.{bb_get_chomped_line_from_file_reads, is_line}
use cargos_buildroot.Makedevs.Directory.{
  bb_make_directory, make_directories, make_parent, make_last, parent_result, last_result,
}
use cargos_buildroot.Makedevs.Entry.{enter_nodes}
use cargos_buildroot.Makedevs.Entry.Laws.{enter_nodes_lem, nodes_of, NodeMode, IsUnsupported, Makes}
use cargos_buildroot.Makedevs.Table.{State, table_lines}
use cargos_buildroot.Makedevs.Table.Laws.{table_lines_recovers, file_of}

abbrev Calls : Type 0
Calls = List Text

abbrev entry : Entry
entry = record {
  name = bytes "/dev/hda";
  type = b'b';
  mode = 416;
  user = bytes "0";
  group = bytes "0";
  major = 3;
  minor = 1;
  start = 1;
  increment = 1;
  count = 3;
}

abbrev entry_of : Text → Option Entry
entry_of [] = none
entry_of (c ∷ line) = if c == b'/' then some entry else none

abbrev recorder : System Calls
recorder = record {
  mkdir = λ path w. (created, w ++ (path ∷ []));
  is_directory = λ w path. false;
  is_regular = λ w path. false;
  chmod = λ path mode w. (true, w);
  chown = λ path uid gid w. (true, w);
  mknod = λ path mode dev w. (true, w ++ (path ∷ (dev ∷ []) ∷ []));
  bb_set_xattr = λ path xattr w. none;
  makedev = λ major minor. 256 * major + minor;
  print = λ n. (48 + n) ∷ [];
  sscanf_xattr = λ line. none;
  sscanf_entry = entry_of;
  strtoul = λ s. some 0;
  passwd = [];
  groups = [];
  uid = 0;
  gid = 0;
}

bb_get_chomped_line_from_file_reads_example :
    bb_get_chomped_line_from_file (bytes "/dev d" ++ (b'\n' ∷ bytes "x"))
    ≡ some (bytes "/dev d", bytes "x")
unfolding is_line
bb_get_chomped_line_from_file_reads_example =
    bb_get_chomped_line_from_file_reads (bytes "/dev d") (bytes "x") refl

table_lines_recovers_example :
    table_lines
      (suc (length (file_of (bytes "a b" ∷ [] ∷ bytes "c" ∷ []))))
      (file_of (bytes "a b" ∷ [] ∷ bytes "c" ∷ []))
    ≡ (bytes "a b" ∷ [] ∷ bytes "c" ∷ [])
unfolding is_line
table_lines_recovers_example = table_lines_recovers (bytes "a b" ∷ [] ∷ bytes "c" ∷ []) refl

enter_nodes_lem_example :
    let r = enter_nodes recorder entry (bytes "/dev/hda") 0 0 [] in
    ((mode : ℕ) × NodeMode 416 b'b' mode
      × Makes recorder mode 0 0 (nodes_of recorder entry (bytes "/dev/hda")) [] r.0 r.1)
    ⊎ (IsUnsupported b'b' × (r ≡ (false, [])))
enter_nodes_lem_example = enter_nodes_lem recorder entry (bytes "/dev/hda") 0 0 []

abbrev initial : State Calls
initial = record { world = []; full_name = none; ok = true }

-- An entry, and a line that is none.
abbrev table : List Text
table = bytes "/dev/hda b" ∷ bytes "x" ∷ []

abbrev entered : State Calls
entered = record {
  world =
      bytes "/t/dev/hda1"
      ∷ (769 ∷ [])
      ∷ bytes "/t/dev/hda2"
      ∷ (770 ∷ [])
      ∷ bytes "/t/dev/hda3"
      ∷ (771 ∷ [])
      ∷ [];
  full_name = some (bytes "/t/dev/hda");
  ok = false;
}

-- A directory is made with its parents.
bb_make_directory_test :
    (bb_make_directory recorder (bytes "/a/b") 493 []).1
    ≡ (bytes "/" ∷ bytes "/a/" ∷ bytes "/a/b" ∷ [])
unfolding bb_make_directory make_directories make_parent make_last parent_result last_result
bb_make_directory_test = refl
