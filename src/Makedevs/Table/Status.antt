-- ===== src/Makedevs/Table/Status.antt =====
-- package/makedevs/makedevs.c: a failure shows in the exit status.
use cargos_buildroot.Base.{◌≡◌, Bool, some, List, ◌∷◌, Text}
use cargos_buildroot.Makedevs.System.{System}
use cargos_buildroot.Makedevs.Table.Failure.{LineFails}
use cargos_buildroot.Makedevs.Table.{State, read_line}

-- A line of the table fails, in the state that the lines before it leave.
pub data SomeFails {W : Type 0} (extended : Bool) (sys : System W) (rootdir : Text)
    : List Text → State W → Type 0 where
  here :
      {line : Text} {lines : List Text} {st : State W}
      → LineFails sys rootdir line st
      → SomeFails extended sys rootdir (line ∷ lines) st
  later :
      {line : Text} {lines : List Text} {st st' : State W}
      → read_line extended sys rootdir line st ≡ some st'
      → SomeFails extended sys rootdir lines st'
      → SomeFails extended sys rootdir (line ∷ lines) st
