-- ===== src/Task/Samples.antt =====
-- Tests of the task names.
use workingman.Prelude.{◌≡◌, ◌<◌, refl, true, false, codes, Str, arith}
use workingman.Sbx.Samples.{repeat, sample_digest, sample_digest-IsHexDigest}
use workingman.Task.{valid_name, valid_name_for, max_name_len_for, slugify, slugify_for}
use workingman.Task.Names.{slugify-valid_name}
use workingman.Task.Budget.{slugify_for-valid_name_for}

slugify-valid_name_example : valid_name (slugify (codes "Add  auth: middleware!")) ≡ true
slugify-valid_name_example = slugify-valid_name (codes "Add  auth: middleware!")

abbrev short_stream : Str
short_stream = codes "orch-auth"

abbrev long_stream : Str
long_stream = repeat 80 b'w'

has_room : 0 < max_name_len_for short_stream
unfolding max_name_len_for
has_room = omega arith

slugify_for-valid_name_for_example :
    valid_name_for (slugify_for sample_digest (codes "Add auth") short_stream) short_stream ≡ true
slugify_for-valid_name_for_example =
    slugify_for-valid_name_for sample_digest sample_digest-IsHexDigest (codes "Add auth")
      short_stream has_room

-- A work stream that leaves no room: the slug is returned as it is, and is not valid.
slug_without_room : slugify_for sample_digest (codes "Add auth") long_stream ≡ codes "add-auth"
unfolding slugify_for
slug_without_room = refl

refused_without_room : valid_name_for (codes "add-auth") long_stream ≡ false
unfolding valid_name_for
refused_without_room = refl
