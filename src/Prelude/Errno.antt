-- ===== src/Prelude/Errno.antt =====
-- What a function of the driver returns: 0, a negative error number, or an error code that the
-- firmware reported, which some functions pass on as it is.
use Prim.Native.Nat.{ℕ, zero, suc}

pub data Errno : Type 0 where
  einval enoent enodata enotempty enomem e2big ebusy eagain eio etimedout econnreset enotsupp echild
        euclean enodev :
      Errno

pub data Rc : Type 0 where
  success : Rc
  failed : Errno → Rc
  hfi_error : ℕ → Rc

-- `rc = inst->hfi_error_code`, where 0 is `CVP_ERR_NONE`.
abbrev pub rc_of_code : ℕ → Rc
rc_of_code zero = success
rc_of_code (suc n) = hfi_error (suc n)
