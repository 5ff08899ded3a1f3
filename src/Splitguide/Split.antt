-- ===== src/Splitguide/Split.antt =====
-- `split_bindings` of buildrs/splitguide.rs. The result is the list of files with what they hold at
-- the end. The locks on the files and the removal of the input at the end are not modelled, and
-- what the files hold after an `Err` is not either.
pub mod Writes
pub mod Delivery
use zenoh_c.Common.{
  Bool, true, false, ◌||◌, not, List, [], ◌∷◌, ◌++◌, if◌then◌else◌, is_empty, any, Outcome, ok, err,
  panic, ◌>>=◌, ◌>>◌,
}
use zenoh_c.Common.Text.{Text, codes, text_eq, Unicode}
use zenoh_c.Splitguide.Failure.{Failure, not_found}
use zenoh_c.Splitguide.Guide.{SplitGuide, from_yaml, appropriate_files, requested_ids}
use zenoh_c.Splitguide.Record.{Record, contains_id, is_used, show_record}
use zenoh_c.Splitguide.Tokenizer.{group_tokens}

-- `files`: what has been written to each path.
abbrev pub Files : Type 0
Files = List (Text × Text)

-- `HEADER`
unfoldable pub header : Text
header =
    codes "//\n// Copyright (c) 2024 ZettaScale Technology\n//\n"
    ++ codes "// This program and the accompanying materials are made available under the\n"
    ++ codes "// terms of the Eclipse Public License 2.0 which is available at\n"
    ++ codes "// http://www.eclipse.org/legal/epl-2.0, or the Apache License, Version 2.0\n"
    ++ codes "// which is available at https://www.apache.org/licenses/LICENSE-2.0.\n//\n"
    ++ codes "// SPDX-License-Identifier: EPL-2.0 OR Apache-2.0\n//\n// Contributors:\n"
    ++ codes "//   ZettaScale Zenoh Team, <zenoh@zettascale.tech>\n//\n// clang-format off\n"
    ++ codes "#ifdef DOCS\n#define ALIGN(n)\n#define ZENOHC_API\n#endif\n"

-- The files as they are created, with the header in each.
unfoldable pub create_files : SplitGuide → Files
create_files [] = []
create_files ((path, _) ∷ g) = (path, header) ∷ create_files g

-- `files.get_mut(&file).unwrap()` and the write.
unfoldable pub append_to : Text → Text → Files → Outcome Failure Files
unfolding text_eq
append_to path text [] = panic
append_to path text ((p, content) ∷ files) =
    let later = append_to path text files >>= λ files'. ok ((p, content) ∷ files') in
    if text_eq p path then ok ((p, content ++ text) ∷ files) else later

-- The loop over the files of one record.
unfoldable pub write_files : List Text → Text → Files → Outcome Failure Files
unfolding append_to
write_files [] text files = ok files
write_files (path ∷ paths) text files = append_to path text files >>= write_files paths text

-- `record.used = true` in that loop
abbrev mark_used : List Text → Record → Record
mark_used [] r = r
mark_used (_ ∷ _) r = record r { used = true }

-- The loop over the records; the records come back with their flags.
unfoldable pub write_records :
    SplitGuide → List Record → Files → Outcome Failure (Files × List Record)
unfolding appropriate_files write_files show_record
write_records g [] files = ok (files, [])
write_records g (r ∷ rs) files = do
  let paths = appropriate_files g r
  files' ← write_files paths (show_record r) files
  (files'', rs') ← write_records g rs files'
  ok (files'', mark_used paths r ∷ rs')

-- The loop over the requested identifiers.
unfoldable pub check_ids : List Text → List Record → Outcome Failure (Unit {0})
unfolding contains_id
check_ids [] rs = ok tt
check_ids (id ∷ ids) rs =
    let later = check_ids ids rs in
    if not (any (λ r. contains_id r id) rs) then err (not_found id) else later

-- The loop over `is_used`.
unfoldable pub check_used : List Record → Outcome Failure (Unit {0})
unfolding is_used
check_used [] = ok tt
check_used (r ∷ rs) = is_used r >> check_used rs

-- `split_bindings` behind the reading of its two inputs.
unfoldable pub split_with : Unicode → SplitGuide → Text → Outcome Failure Files
unfolding create_files group_tokens requested_ids check_ids write_records check_used
split_with u g bindings = do
  records ← group_tokens u bindings
  check_ids (requested_ids g) records
  (files, records') ← write_records g records (create_files g)
  check_used records'
  ok files

unfoldable pub split_bindings :
    Unicode → Text → List (Text × List Text) → Text → Outcome Failure Files
unfolding from_yaml split_with
split_bindings u features yaml bindings = split_with u (from_yaml features yaml) bindings
