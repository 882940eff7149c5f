-- ===== src/Device/Read.antt =====
-- `Device.ReadAt`, and what it reads after a write.
use satchel.Base.{
  ℕ, ◌+◌, ◌-◌, ◌<◌, ◌≡◌, refl, ◌∙◌, List, arith, ltb, leb, if◌then◌else◌, length, min, ◌&&◌, Result,
  ok, err,
}
use satchel.Base.Bytes.{tabulate, get_or, get_or-tabulate}
use satchel.Device.Whole.{stored_whole}
use satchel.Device.{Block, Device, notify_dirty}

pub data ReadError : Type 0 where
  read_closed end_of_file : ReadError

-- The bytes of a range of the image.
unfoldable pub read_file : Device → ℕ → ℕ → List ℕ
unfolding tabulate
read_file d off len = tabulate (λ i. d.file (off + i)) len

-- `Device.ReadAt`: a range that passes the end of the device is cut off there.
unfoldable pub read_at : Device → ℕ → ℕ → Result ReadError (List ℕ)
unfolding read_file
read_at d off len =
    if d.closed
    then err read_closed
    else if leb d.size off
    then err end_of_file
    else ok (read_file d off (min len (d.size - off)))

same_file : (d : Device) (i : ℕ) → (notify_dirty d).file i ≡ d.file i
unfolding notify_dirty
same_file d i = ground arith

-- What a write stored_whole is what a read of the range finds, byte by byte, and a byte outside of the
-- write is read as before.
pub read_file-stored_whole :
    (fresh : ℕ → Block) (d : Device) (written : List ℕ) (off from len i : ℕ)
    → i < len
    → get_or (read_file (notify_dirty (stored_whole fresh d written off)) from len) i 0 ≡ (
        if leb off (from + i) && ltb (from + i) (off + length written)
        then get_or written (from + i - off) 0
        else get_or (read_file d from len) i 0)
unfolding read_file stored_whole
read_file-stored_whole fresh d written off from len i l =
    get_or-tabulate (λ k. (notify_dirty (stored_whole fresh d written off)).file (from + k)) len i 0
      l
    ∙ same_file (stored_whole fresh d written off) (from + i)
    ∙ (rw (get_or-tabulate (λ k. d.file (from + k)) len i 0 l) refl)
