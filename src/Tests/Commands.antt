-- ===== src/Tests/Commands.antt =====
-- The archive of one file, unpacked and verified from the command line, and what `list` prints of it.
use cryo.Base.{
  ℕ, ◌+◌, ◌*◌, ◌/◌, ◌≤◌, ◌<◌, ◌^◌, ◌≡◌, refl, Bool, true, some, none, List, [], ◌∷◌, ◌++◌, inr,
  arith, All, bytes_eq, String,
}
use cryo.Base.Int.{pos, negsuc}
use cryo.Base.Text.{codes}
use cryo.Commands.{Globs, Paths, DecompressArgs, verify_archive}
use cryo.Errors.{ok}
use cryo.FilePath.{FilePath, normal}
use cryo.Listing.Dates.{days_to_ymd}
use cryo.Listing.Dates.Calendar.{after}
use cryo.Listing.Dates.Eras.{epoch, days_to_ymd-after}
use cryo.Listing.Json.{js}
use cryo.Listing.Permissions.{format_permissions}
use cryo.Listing.Timestamp.{split_time, format_timestamp, second_of, IsTime, second_of-split_time}
use cryo.PathSafety.{Change, made_dir, made_file}
use cryo.Tests.Create.{typed, content, serializers}
use cryo.Tests.Extraction.{out, opened}
use cryo.Tests.Toys.{toy_compressors, toy_ciphers}

-- A pattern is a text that matches everything.
abbrev pub globs : Globs
globs = record {
  Pattern = String;
  Matcher = List String;
  parse = λ s. some s;
  build = λ patterns. some patterns;
  is_match = λ patterns p. true;
}

abbrev pub paths : Paths
paths = record {
  extension = λ p. some "cryo";
  display = λ p. "a.cryo";
  exists = λ p. true;
  is_file = λ p. true;
  is_dir = λ p. Bool.false;
  dir_count = λ p. inr 0;
  opened = λ p. inr content;
}

abbrev args : DecompressArgs
args = record {
  archive = normal "a.cryo" ∷ [];
  output = out;
  max_file_size = none;
  max_block_size = none;
  max_m_cost = some 1048576000;
  max_index_size = none;
  max_header_size = none;
  filter = "*" ∷ [];
  confirm = true;
}

abbrev restored : List Change
restored =
    made_dir out
    ∷ made_dir out
    ∷ made_dir out
    ∷ made_file (out ++ (normal "a" ∷ [])) opened.content 420 1700000000
    ∷ []

verified : verify_archive toy_compressors toy_ciphers serializers paths args.archive typed ≡ ok tt
unfolding verify_archive cryo.Commands.check_read_only_args_for_errors cryo.Reader.new_reader
    cryo.Loader.retrieve cryo.Loader.read_header cryo.Disk.read_exact cryo.Base.Bytes.to_le_bytes
    cryo.Format.Footer.serialize cryo.Base.Bytes.from_le_bytes cryo.Loader.check_header
    cryo.Format.new_header bytes_eq cryo.Loader.read_footer cryo.Disk.seek_end
    cryo.Format.Footer.deserialize cryo.Disk.seek_start cryo.Engine.new_decompressing
    cryo.Format.params cryo.Loader.verify_metadata cryo.Codec.new_cipher cryo.Loader.read_index
    cryo.Codec.decrypt_block cryo.Reader.verify cryo.Reader.verify_block cryo.Reader.verify_from
verified = refl

days_to_ymd-after_example :
    (days_to_ymd (pos 59) ≡ after 59 epoch) × (after 60 (days_to_ymd (negsuc 59)) ≡ epoch)
days_to_ymd-after_example = days_to_ymd-after 59

dates :
    (days_to_ymd (pos 11016) ≡ (pos 2000, 2, 29))
    × (days_to_ymd (pos 11017) ≡ (pos 2000, 3, 1))
    × (days_to_ymd (negsuc 0) ≡ (pos 1969, 12, 31))
unfolding days_to_ymd
dates = (refl, refl, refl)

stamp : format_timestamp 1000000000 ≡ codes "2001-09-09 01:46:40"
unfolding format_timestamp days_to_ymd
stamp = refl

second_of-split_time_example :
    (second_of (split_time (negsuc 86400)) ≡ negsuc 86400) × IsTime (split_time (negsuc 86400))
second_of-split_time_example = second_of-split_time (negsuc 86400) (omega arith)

mode : format_permissions 33188 ≡ codes "rw-r--r--"
unfolding format_permissions
mode = refl

quoted : js (codes "a\"b") ≡ codes "\"a\\\"b\""
unfolding js
quoted = refl
