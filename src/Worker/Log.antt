-- ===== src/Worker/Log.antt =====
-- `Log` of termite/worker.go: a part of the worker's log file. `int64` is an integer; a sum wraps around.
pub mod Parts
mod Tests
use termite.Base.{
  ℕ, ◌^◌, Bytes, Bool, true, false, ◌&&◌, List, [], Option, none, some, length, take, drop, ltb,
  leb, ◌==◌, nat_eq, if◌then◌else◌, is_empty, ℤ, pos, negsuc, pos_part, neg_part, ◌+ℤ◌, ◌-ℤ◌, ltb_ℤ,
}

pub record LogRequest : Type 0 where
  pub whence : ℕ
  pub off : ℤ
  pub size : ℤ

pub data LogResponse : Type 0 where
  -- no log file is set, or it cannot be opened; `Seek` fails; the file has ended
  no_log bad_seek at_end : LogResponse
  -- `make` of a negative length
  panicked : LogResponse
  read : Bytes → LogResponse

abbrev pub seek_set : ℕ
seek_set = 0

abbrev pub seek_cur : ℕ
seek_cur = 1

abbrev pub seek_end : ℕ
seek_end = 2

-- The sum of two numbers of 64 bits.
pub add64 : ℤ → ℤ → ℤ
add64 a b =
    let s = a +ℤ b in
    if ltb_ℤ s (pos (2 ^ 63))
    then (if ltb_ℤ s (pos 0 -ℤ pos (2 ^ 63)) then s +ℤ pos (2 ^ 64) else s)
    else s -ℤ pos (2 ^ 64)

pub clip_end : ℤ → LogRequest → LogRequest
clip_end size req =
    let off = if ltb_ℤ req.off (pos 0 -ℤ size) then pos 0 -ℤ size else req.off in
    record req {
      off = off;
      size = if ltb_ℤ (pos 0) (add64 off req.size) then pos 0 -ℤ off else req.size;
    }

pub clip_set : ℤ → LogRequest → LogRequest
clip_set size req =
    let off = if ltb_ℤ size req.off then size else req.off in
    record req {
      off = off;
      size = if ltb_ℤ size (add64 off req.size) then size -ℤ off else req.size;
    }

pub clip : ℤ → LogRequest → LogRequest
clip size req =
    if req.whence == seek_end
    then clip_end size req
    else if req.whence == seek_set
    then clip_set size req
    else req

-- `f.Seek`, where the file is at its end; `none` where it fails.
pub seek : ℤ → ℕ → ℤ → Option ℕ
seek size whence off =
    let to = λ (a : ℤ). if ltb_ℤ a (pos 0) then none else some (pos_part a) in
    if whence == seek_set
    then to off
    else if (whence == seek_end)
    then to (size +ℤ off)
    else if whence == seek_cur
    then to (size +ℤ off)
    else none

-- `make` and `f.Read`
pub read_part : Bytes → ℕ → ℤ → LogResponse
read_part content at (negsuc n) = panicked
read_part content at (pos n) =
    if n == 0
    then read []
    else if leb (length content) at
    then at_end
    else read (take n (drop at content))

-- `Log`, behind the opening of the file, which has this content.
pub log : Option Bytes → LogRequest → LogResponse
log none req = no_log
log (some content) req =
    let size = pos (length content) in
    let r = clip size req in
    elim (seek size r.whence r.off) [ none ↦ bad_seek | some at ↦ read_part content at r.size ]
