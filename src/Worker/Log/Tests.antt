-- ===== src/Worker/Log/Tests.antt =====
-- A log file of five bytes.
use termite.Base.{
  ℕ, ◌≡◌, ◌-◌, refl, Bytes, codes, Bool, true, false, List, [], ◌∷◌, Option, some, none, ltb, leb,
  length, take, drop, arith, ℤ, pos, negsuc, if◌then◌else◌, ◌==◌, nat_eq, ltb_ℤ,
}
use termite.Worker.Log.{LogRequest, LogResponse, read, panicked, seek_end, log}
use termite.Worker.Log.Parts.{from_start, from_end, log-take}

abbrev hello : Bytes
hello = codes "hello"

log-take_example :
    (log (some hello) (from_start hello 3 7) ≡ read (take 7 (drop 3 hello)))
    × (log (some hello) (from_end hello 3 7) ≡ read (take 7 (drop (length hello - 3) hello)))
log-take_example = log-take hello 3 7 (omega arith) (omega arith) (omega arith)

-- An offset behind the end ends the worker: the length is made negative.
log-behind : log (some hello) (record { whence = seek_end; off = pos 2; size = pos 1 }) ≡ panicked
unfolding log termite.Worker.Log.clip termite.Worker.Log.clip_end termite.Worker.Log.add64
    termite.Worker.Log.seek termite.Worker.Log.read_part termite.Base.◌+ℤ◌ termite.Base.◌-ℤ◌
log-behind = refl
