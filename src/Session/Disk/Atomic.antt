-- ===== src/Session/Disk/Atomic.antt =====
-- What a failure while saving leaves.
use Prim.Native.String.{len}
use text.Mathlib.TextPositions.{len-append}
use realy_code.Common.{
  Bool-cases, ℕ, String, Bool, true, false, Option, none, some, ◌≡◌, refl, ap, ◌⊎◌, inl, inr, arith,
  str_eq, str_eq_iff, if_cases, if_true, if_false,
}
use realy_code.Session.Store.{Store, prune}
use realy_code.Session.Disk.{
  Codec, Stats, Faults, Files, Saved, snapshot, write_text, tmp_of, write_raw, write_file,
  write_tmp, rename_file, save_file,
}

-- the file is as before, or it holds the whole of what was to be written, and then all went well
abbrev pub IsWhole : String → Option String → Files → Bool × Files → Type 0
IsWhole path raw disk done =
    ((done.0 ≡ false) × (done.1 path ≡ disk path)) ⊎ ((done.0 ≡ true) × (done.1 path ≡ raw))

write_text-other :
    (p q : String) (t : Option String) (disk : Files)
    → str_eq p q ≡ false
    → write_text p t disk q ≡ disk q
write_text-other p q t disk h = if_false t h

pub write_text-same : (p : String) (t : Option String) (disk : Files) → write_text p t disk p ≡ t
write_text-same p t disk = if_true (disk p) ((str_eq_iff p p).1 refl)

rename_file-IsWhole :
    (fails : Bool) (path raw : String) (disk before : Files)
    → disk path ≡ before path
    → IsWhole path (some raw) before (rename_file fails path raw disk)
rename_file-IsWhole true path raw disk before same = inl (refl, same)
rename_file-IsWhole false path raw disk before same =
    inr (refl, write_text-same path (some raw) (write_text (tmp_of path) none disk))

write_tmp-IsWhole :
    (faults : Faults) (path raw : String) (disk : Files)
    → str_eq (tmp_of path) path ≡ false
    → IsWhole path (some raw) disk (write_tmp faults path raw disk)
write_tmp-IsWhole faults path raw disk apart = by_write faults.write
  where
    by_write :
        (w : Option String)
        → IsWhole path (some raw) disk (elim w [
          | some part ↦ (false, write_text (tmp_of path) (some part) disk)
          | none ↦ rename_file faults.rename path raw (write_text (tmp_of path) (some raw) disk)
        ])
    by_write (some part) = inl (refl, write_text-other (tmp_of path) path (some part) disk apart)
    by_write none =
        rename_file-IsWhole faults.rename path raw (write_text (tmp_of path) (some raw) disk) disk
          (write_text-other (tmp_of path) path (some raw) disk apart)

write_raw-IsWhole :
    (faults : Faults) (path : String) (raw : Option String) (disk : Files)
    → str_eq (tmp_of path) path ≡ false
    → IsWhole path raw disk (write_raw faults path raw disk)
unfolding write_file
write_raw-IsWhole faults path none disk apart = inl (refl, refl)
write_raw-IsWhole faults path (some raw) disk apart =
    if_cases (IsWhole path (some raw) disk) faults.mkdir (λ h. inl (refl, refl))
      (λ h. write_tmp-IsWhole faults path raw disk apart)

tmp_apart : (path : String) → str_eq (tmp_of path) path ≡ false
tmp_apart path = elim (Bool-cases (str_eq (tmp_of path) path)) [
  | inl same ↦
      absurd
        (omega (arith, len-append path ".tmp", ap len ((str_eq_iff (tmp_of path) path).0 same)))
  | inr apart ↦ apart
]

-- Whatever fails while a store is saved under a path, the file under the path is as it was and the
-- error is returned, or no error is returned and it holds the whole snapshot of the pruned store.
pub save_file-IsWhole :
    (j : Codec) (faults : Faults) (now later : ℕ) (path : String) (s : Store) (stats : Stats)
    (disk : Files)
    → str_eq path "" ≡ false
    → IsWhole path (j.marshal_snapshot (snapshot j later (prune now s) stats)) disk (
      (save_file j faults now later path s stats disk).ok,
      (save_file j faults now later path s stats disk).disk,
    )
unfolding save_file
save_file-IsWhole j faults now later path s stats disk named =
    let raw = j.marshal_snapshot (snapshot j later (prune now s) stats) in
    if_cases (λ (r : Saved). IsWhole path raw disk (r.ok, r.disk)) (str_eq path "")
      (λ h. absurd (cc)) (λ h. write_raw-IsWhole faults path raw disk (tmp_apart path))
