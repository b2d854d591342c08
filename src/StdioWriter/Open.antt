-- ===== src/StdioWriter/Open.antt =====
-- `safe_open`, `stdio_wopen` and `stdio_wclose`.
use wandio.Base.{
  ℕ, ◌==◌, Bool, false, not, ◌&&◌, [], Option, none, some, if◌then◌else◌, Bytes, codes, str_eq,
}
use wandio.Writer.{Outcome, done, aborted, no_fuel}
use wandio.StdioWriter.{Stdiow, Calls, stdio_wflush}

-- The system calls and what the process knows of itself. `open_file` opens for writing with the
-- caller's flags, with O_DIRECT or without; `none` is -1. `sudo_uid` and `sudo_gid` are what `strtol`
-- makes of the environment's SUDO_UID and SUDO_GID, `none` where they are not set. `fchown` is `none`
-- where it fails.
pub record OpenCalls (F : Type 0) : Type 0 where
  pub open_file : Bytes → ℕ → Bool → Option F
  pub standard : F
  pub uid : ℕ
  pub sudo_uid : Option ℕ
  pub sudo_gid : Option ℕ
  pub fchown : F → ℕ → ℕ → Option F

abbrev or_zero : Option ℕ → ℕ
or_zero none = 0
or_zero (some n) = n

module _ {F : Type 0} (sys : OpenCalls F) where
  -- under sudo, the file is given to the user who called it
  owned : Option F → Option F
  owned none = none
  owned (some f) =
      let userid = or_zero sys.sudo_uid in
      if sys.uid == 0 && not (userid == 0)
      then sys.fchown f userid (or_zero sys.sudo_gid)
      else some f

  -- with `force_directio_write`
  pub safe_open : Bytes → ℕ → Bool → Option F
  safe_open filename flags force_directio = elim (sys.open_file filename flags force_directio) [
    | none ↦ owned (sys.open_file filename flags false)
    | some f ↦ owned (some f)
  ]

  abbrev fresh : Option F → Option (Stdiow F)
  fresh none = none
  fresh (some f) = some (record { held = []; file = f })

  pub stdio_wopen : Bytes → ℕ → Bool → Option (Stdiow F)
  stdio_wopen filename flags force_directio = fresh (
      if str_eq filename (codes "-")
      then some sys.standard
      else safe_open filename flags force_directio)

-- the file as `close` gets it; what the flush returns is not looked at
module _ {F : Type 0} (sys : Calls F) where
  left_file : Outcome (Stdiow F) → Option F
  left_file (done v s) = some s.file
  left_file aborted = none
  left_file no_fuel = none

  pub stdio_wclose : Stdiow F → Option F
  stdio_wclose s = left_file (stdio_wflush sys s)
