-- ===== src/Fs/OpenOptions.antt =====
-- `OpenOptions` of vibeio/src/fs/open_options.rs, on Linux, with the flags of open(2) as their sum, and
-- `std::fs::OpenOptions` of Rust's standard library, which the code leaves the same options to where
-- no driver opens the file. What the operating system opens is the interface `Files`.
mod Agree
mod Tests
use vibeio.Prelude.{
  ℕ, ◌+◌, ◌*◌, ◌≡◌, Bool, true, false, not, ◌&&◌, ◌||◌, Option, none, some, List, [], ◌∷◌, Result,
  ok, err, IoError, invalid_input, ◌==◌, if◌then◌else◌,
}
use vibeio.Op.Open
use vibeio.Op.Open.{OpenOp}
use vibeio.Fs.File.{File, FileIo, completion, offloaded, blocking}

pub record OpenOptions : Type 0 where
  pub read : Bool
  pub write : Bool
  pub append : Bool
  pub truncate : Bool
  pub create : Bool
  pub create_new : Bool

abbrev pub new : OpenOptions
new = record {
  read = false;
  write = false;
  append = false;
  truncate = false;
  create = false;
  create_new = false;
}

-- The flags of open(2) on Linux.
abbrev pub o_wronly : ℕ
o_wronly = 1

abbrev pub o_rdwr : ℕ
o_rdwr = 2

abbrev pub o_creat : ℕ
o_creat = 64

abbrev pub o_excl : ℕ
o_excl = 128

abbrev pub o_trunc : ℕ
o_trunc = 512

abbrev pub o_append : ℕ
o_append = 1024

abbrev pub o_cloexec : ℕ
o_cloexec = 524288

-- What the options are checked for before anything is opened.
unfoldable pub validate : OpenOptions → Result (Unit {0})
validate o =
    let writing = o.write || o.append in
    if not o.read && not writing
    then err invalid_input
    else if (o.truncate || (o.create || o.create_new)) && not writing
    then err invalid_input
    else ok tt

-- `path_bytes.contains(&0)`.
abbrev pub has_nul : List ℕ → Bool
has_nul [] = false
has_nul (byte ∷ bytes) = (byte == 0) || has_nul bytes

abbrev pub flag : Bool → ℕ → ℕ
flag b n = if b then n else 0

abbrev pub create_flags : OpenOptions → ℕ
create_flags o = if o.create_new then o_creat + o_excl else if o.create then o_creat else 0

-- The flags that `build_open_op` starts from.
abbrev pub access_flags : Bool → Bool → Option ℕ
access_flags true false = some 0
access_flags false true = some o_wronly
access_flags true true = some o_rdwr
access_flags false false = none

unfoldable pub open_flags : OpenOptions → Option ℕ
open_flags o = elim (access_flags o.read (o.write || o.append)) [
  | none ↦ none
  | some access ↦
      some (access + flag o.append o_append + flag o.truncate o_trunc + create_flags o + o_cloexec)
]

unfoldable pub build_open_op : OpenOptions → List ℕ → Result OpenOp
build_open_op o path = elim (open_flags o) [
  | none ↦ err invalid_input
  | some flags ↦ if has_nul path then err invalid_input else ok (Open.new path flags 438)
]

-- `get_access_mode` and `get_creation_mode` of the standard library.
abbrev pub std_access : Bool → Bool → Bool → Option ℕ
std_access true false false = some 0
std_access false true false = some o_wronly
std_access true true false = some o_rdwr
std_access false write true = some (o_wronly + o_append)
std_access true write true = some (o_rdwr + o_append)
std_access false false false = none

abbrev pub std_refuses : OpenOptions → Bool
std_refuses o =
    if o.append
    then o.truncate && not o.create_new
    else if o.write
    then false
    else o.truncate || (o.create || o.create_new)

abbrev pub std_creation : Bool → Bool → Bool → ℕ
std_creation create truncate true = o_creat + o_excl
std_creation create truncate false = flag create o_creat + flag truncate o_trunc

unfoldable pub std_flags : OpenOptions → Option ℕ
std_flags o = elim (std_access o.read o.write o.append) [
  | none ↦ none
  | some access ↦
      if std_refuses o
      then none
      else some (o_cloexec + access + std_creation o.create o.truncate o.create_new)
]

-- What opens files: openat(2) of a path with flags and a mode, the length in a file's metadata, what
-- stops the blocking pool, and whether a driver takes a file on.
pub record Files (F : Type 0) : Type 0 where
  pub open_at : List ℕ → ℕ → ℕ → Result F
  pub len : F → Result ℕ
  pub pool_error : Option IoError
  pub register : F → Bool

module _ {F : Type 0} ⦃files : Files F⦄ where
  -- `std::fs::OpenOptions::open`, with the options of this one.
  unfoldable pub open_blocking : OpenOptions → List ℕ → Result F
  open_blocking o path = if has_nul path then err invalid_input else elim (std_flags o) [
    | none ↦ err invalid_input
    | some flags ↦ files.open_at path flags 438
  ]

  unfoldable pub open_in_blocking_pool : OpenOptions → List ℕ → Result F
  unfolding open_blocking
  open_in_blocking_pool o path = elim files.pool_error [
    | some e ↦ err e
    | none ↦ open_blocking o path
  ]

  -- The operation that `build_open_op` makes, done by the driver.
  unfoldable pub open_by_driver : OpenOptions → List ℕ → Result F
  open_by_driver o path = elim (build_open_op o path) [
    | err e ↦ err e
    | ok op ↦ files.open_at op.path op.flags op.mode
  ]

  unfoldable pub initial_cursor_for_append : OpenOptions → F → Result ℕ
  initial_cursor_for_append o file = if o.append then files.len file else ok 0

  -- The file that a driver opened or could open: `from_std_with_cursor`.
  unfoldable pub from_std_with_cursor : FileIo → F → ℕ → File F
  from_std_with_cursor completion file cursor = record {
    inner = file;
    io = if files.register file then completion else blocking;
    cursor = cursor;
  }
  from_std_with_cursor offloaded file cursor = record {
    inner = file;
    io = offloaded;
    cursor = cursor;
  }
  from_std_with_cursor blocking file cursor = record {
    inner = file;
    io = blocking;
    cursor = cursor;
  }

  abbrev pub open_std : FileIo → OpenOptions → List ℕ → Result F
  unfolding open_by_driver open_in_blocking_pool open_blocking
  open_std completion o path = open_by_driver o path
  open_std offloaded o path = open_in_blocking_pool o path
  open_std blocking o path = open_blocking o path

  -- `open`: the runtime's way with files is that of its driver and its `fs_offload`.
  unfoldable pub open_file : FileIo → OpenOptions → List ℕ → Result (File F)
  unfolding open_std validate initial_cursor_for_append from_std_with_cursor
  open_file io o path = elim (validate o) [
    | err e ↦ err e
    | ok _ ↦ elim (open_std io o path) [
      | err e ↦ err e
      | ok file ↦ elim (initial_cursor_for_append o file) [
        | err e ↦ err e
        | ok cursor ↦ ok (from_std_with_cursor io file cursor)
      ]
    ]
  ]
