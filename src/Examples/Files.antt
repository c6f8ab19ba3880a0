-- ===== src/Examples/Files.antt =====
-- The store of one entry, saved to a file and loaded again.
use Prim.Native.String.{len}
use realy_code.Common.{
  ℕ, zero, suc, String, concat, [], ◌∷◌, str_eq, if◌then◌else◌, pos, false, none, some, ◌≡◌, refl,
  arith,
}
use realy_code.Session.Store.{new_store, prune, commit, find_entry}
use realy_code.Session.Prepare.{prepare, last_of}
use realy_code.Session.Commit.{IsBounded}
use realy_code.Session.Disk.{
  Codec, Stats, Files, Faults, DiskSnapshot, snapshot, disk_entries, load_snapshot, load_file,
  save_file,
}
use realy_code.Session.Disk.Bounds.{load_snapshot-IsBounded}
use realy_code.Session.Disk.Atomic.{IsWhole, save_file-IsWhole}
use realy_code.Session.Disk.Reload.{no_faults, found_in, stats_in, save-load}
use realy_code.Session.Disk.Reread.{indented_snapshot, reread_found}
use realy_code.Examples.Sessions.{committed, first_turn}

abbrev zero_stats : Stats
zero_stats = record {
  hits = pos 1;
  misses = pos 0;
  forced_replays = pos 0;
  expired_invalid = pos 0;
  input_tokens = pos 4;
  output_tokens = pos 2;
}

-- a time in unary, the message of the first turn, and no snapshot
abbrev unary : ℕ → String
unary zero = ""
unary (suc n) = concat ("s" ∷ unary n ∷ [])

abbrev writes : Codec
writes = record {
  format_time = unary;
  parse_time = λ s. some (len s);
  marshal_content = λ c. some "[hi]";
  unmarshal_content =
      λ s. if str_eq s "[ hi ]" then some first_turn.0.new_last_message.content else none;
  marshal_snapshot = λ d. some (concat ("{" ∷ d.saved_at ∷ "}" ∷ []));
  unmarshal_snapshot = λ s. none;
}

abbrev spaced : String → String
spaced s = if str_eq s "[hi]" then "[ hi ]" else s

abbrev held : DiskSnapshot
held = snapshot writes 8 (prune 7 committed) zero_stats

abbrev codec : Codec
codec = record writes {
  unmarshal_snapshot =
      λ s. if str_eq s "{ssssssss}" then some (indented_snapshot spaced held) else none;
}

abbrev no_files : Files
no_files path = none

abbrev half_written : Faults
half_written = record { mkdir = false; write = some "{"; rename = false }

load_snapshot-IsBounded_example : IsBounded (load_snapshot codec 9 (pos 60) (pos 1) held)
load_snapshot-IsBounded_example = load_snapshot-IsBounded codec 9 (pos 60) (pos 1) held

save_file-IsWhole_example : IsWhole "s.json" (some "{ssssssss}") no_files (
  (save_file codec half_written 7 8 "s.json" committed zero_stats no_files).ok,
  (save_file codec half_written 7 8 "s.json" committed zero_stats no_files).disk,
)
save_file-IsWhole_example =
    save_file-IsWhole codec half_written 7 8 "s.json" committed zero_stats no_files refl

save-load_example :
    (found_in first_turn.0.new_key (
        load_file codec false
          (save_file codec no_faults 7 8 "s.json" committed zero_stats no_files).disk
          "s.json"
          9
          (pos 60)
          (pos 1))
      ≡ reread_found
          (λ c. c)
          (find_entry first_turn.0.new_key (prune 9 (prune 7 committed)).entries))
    × (stats_in (
          load_file codec false
            (save_file codec no_faults 7 8 "s.json" committed zero_stats no_files).disk
            "s.json"
            9
            (pos 60)
            (pos 1))
        ≡ some zero_stats)
unfolding prepare prune last_of commit find_entry new_store disk_entries
save-load_example =
    save-load codec spaced (λ c. c) 7 8 9 "s.json" (pos 60) (pos 1) committed zero_stats no_files
      first_turn.0.new_key "{ssssssss}" refl refl refl
      (("[hi]", refl, refl, refl, refl, refl, refl, refl), tt) (refl, tt) (omega arith) refl refl
