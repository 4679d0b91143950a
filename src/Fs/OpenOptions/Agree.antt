-- ===== src/Fs/OpenOptions/Agree.antt =====
-- The flags of the driver and of the standard library.
use vibeio.Prelude.{
  ℕ, ◌+◌, ◌≡◌, refl, sym, ap, ◌∙◌, true, false, ◌||◌, Option, none, some, List, Result, ok, err,
  invalid_input, arith, if◌then◌else◌,
}
use vibeio.Op.Open
use vibeio.Fs.OpenOptions.{
  OpenOptions, Files, o_trunc, o_rdwr, o_wronly, o_append, o_cloexec, flag, create_flags, validate,
  open_flags, std_flags, has_nul, build_open_op, open_by_driver, open_blocking,
}

flags_agree :
    (o : OpenOptions)
    → (o.truncate ≡ true → o.append || o.create_new ≡ false)
    → validate o ≡ ok tt
    → open_flags o ≡ std_flags o
unfolding open_flags std_flags validate
flags_agree o h v = ground arith

-- The flags of a file that is appended to, and maybe truncated.
abbrev appended_flags : OpenOptions → ℕ
appended_flags o =
    let access = if o.read then o_rdwr else o_wronly in
    access + o_append + flag o.truncate o_trunc + create_flags o + o_cloexec

open_flags_appended : (o : OpenOptions) → o.append ≡ true → open_flags o ≡ some (appended_flags o)
unfolding open_flags
open_flags_appended o a = ground arith

more_flags :
    (o : OpenOptions)
    → o.truncate ≡ true
    → appended_flags o ≡ appended_flags (record o { truncate = false }) + o_trunc
more_flags o t = ground arith

appended-IsValid : (o : OpenOptions) → o.append ≡ true → validate o ≡ ok tt
unfolding validate
appended-IsValid o a = ground arith

std_flags_appended :
    (o : OpenOptions)
    → o.append ≡ true
    → o.truncate ≡ true
    → o.create_new ≡ false
    → std_flags o ≡ none
unfolding std_flags
std_flags_appended o a t c = ground arith

module _ {F : Type 0} ⦃files : Files F⦄ where
  -- The options, as they stand, with the flags of one of the two.
  open_with : List ℕ → Option ℕ → Result F
  open_with path none = err invalid_input
  open_with path (some flags) =
      if has_nul path then err invalid_input else files.open_at path flags 438

  open_with-some :
      (path : List ℕ) (flags : ℕ)
      → has_nul path ≡ false
      → open_with path (some flags) ≡ files.open_at path flags 438
  unfolding open_with
  open_with-some path flags n = ground arith

  open_with-none : (path : List ℕ) → open_with path none ≡ err invalid_input
  unfolding open_with
  open_with-none path = refl

  open_by_driver_with :
      (o : OpenOptions) (path : List ℕ) → open_by_driver o path ≡ open_with path (open_flags o)
  unfolding open_by_driver build_open_op Open.new open_with
  open_by_driver_with o path = ground arith

  open_blocking_with :
      (o : OpenOptions) (path : List ℕ) → open_blocking o path ≡ open_with path (std_flags o)
  unfolding open_blocking open_with
  open_blocking_with o path = ground arith

  -- The driver opens a file as the standard library opens it for the same options, with the same
  -- flags and mode, and refuses the paths that it refuses. The options are valid, and do not truncate
  -- a file that they append to or that they must create.
  pub open_by_driver-open_blocking :
      (o : OpenOptions) (path : List ℕ)
      → validate o ≡ ok tt
      → (o.truncate ≡ true → o.append || o.create_new ≡ false)
      → open_by_driver {F = F} o path ≡ open_blocking o path
  open_by_driver-open_blocking o path v h =
      open_by_driver_with o path
      ∙ ap (open_with path) (flags_agree o h v)
      ∙ sym (open_blocking_with o path)

  -- A file that is appended to and truncated, and need not be new, is emptied where the driver opens
  -- it: the options are valid, and its flags are those of the options without `truncate` and one
  -- more, of truncation. The standard library refuses such options. The path holds no zero byte.
  pub append_truncates_by_driver :
      (o : OpenOptions) (path : List ℕ)
      → o.append ≡ true
      → o.truncate ≡ true
      → o.create_new ≡ false
      → has_nul path ≡ false
      → (validate o ≡ ok tt)
        × ((flags : ℕ) × (open_flags (record o { truncate = false }) ≡ some flags)
            × (open_by_driver {F = F} o path ≡ files.open_at path (flags + o_trunc) 438))
        × (open_blocking {F = F} o path ≡ err invalid_input)
  append_truncates_by_driver o path a t c n = (
    appended-IsValid o a,
    (
      appended_flags (record o { truncate = false }),
      open_flags_appended (record o { truncate = false }) a,
      open_by_driver_with o path
          ∙ ap (open_with path) (open_flags_appended o a ∙ ap some (more_flags o t))
          ∙ open_with-some path (appended_flags (record o { truncate = false }) + o_trunc) n,
    ),
    open_blocking_with o path
        ∙ ap (open_with path) (std_flags_appended o a t c)
        ∙ open_with-none path,
  )
