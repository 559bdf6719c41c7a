-- ===== src/Blocklists/Examples.antt =====
-- Concrete lists.
use faro.Prelude.{nat_eq, ◌≡◌, refl, true, false, List, [], ◌∷◌, none, some, ◌⊎◌, All, ok}
use faro.Strings.{Bytes, bytes_beq, codes, split, contains_string, trim_suffix, to_lower}
use faro.Strings.Order.{IsAscending}
use faro.Policy.{any_row}
use faro.Policy.HostsFile.{IsName}
use faro.Blocklists.{parse}
use faro.Blocklists.Lines.{line_gives, parse_sound}
use faro.Blocklists.Refresh.{ListRow, Lists, Tx, World, find_list, refresh_and_apply}
use faro.Blocklists.Restore.{IsRefreshed, refresh_and_apply-IsRefreshed}
use faro.Blocklists.Due.{due_ids, refresh_due}
use faro.Blocklists.Pass.{has_id, refresh_due_lem}

abbrev text0 : Bytes
text0 =
    codes
      "# hosts\n0.0.0.0 hosts.example\n||adblock.example^$important\n@@||allowed.example^\npage.example##.advert\nplain.example\n"

abbrev found0 : List Bytes
found0 = codes "adblock.example" ∷ codes "hosts.example" ∷ codes "plain.example" ∷ []

parse0 : parse true text0 ≡ ok found0
unfolding parse trim_suffix to_lower bytes_beq
parse0 = refl

parse_sound_example :
    IsAscending found0
    × All IsName found0
    × ((domain : Bytes)
        → contains_string domain found0 ≡ any_row (line_gives domain) (split 10 text0))
parse_sound_example = parse_sound true text0 found0 parse0

abbrev fine : Tx
fine = record {
  begin_ok = true;
  delete_ok = true;
  prepare_ok = true;
  insert_ok = λ n. true;
  update_ok = true;
  commit_ok = true;
}

abbrev world0 : World
world0 = record {
  now = 90;
  body = λ url. some text0;
  read_ok = true;
  snapshot_ok = true;
  replace = fine;
  restore = fine;
}

abbrev lists0 : Lists
lists0 =
    (
      3,
      record {
        url = codes "https://lists.example";
        enabled = true;
        last_refreshed_at = some 10;
        updated_at = 10;
        domains = codes "old.example" ∷ [];
      },
    )
    ∷ []

-- CoreDNS refuses every change.
refresh_and_apply-IsRefreshed_example :
    IsRefreshed
      (some (λ l. false))
      world0
      3
      lists0
      (refresh_and_apply (some (λ l. false)) world0 3 lists0)
refresh_and_apply-IsRefreshed_example =
    refresh_and_apply-IsRefreshed (some (λ l. false)) world0 3 lists0

passed0 : (refresh_due none (λ id. world0) 50 lists0).1 ≡ false
unfolding refresh_due trim_suffix to_lower bytes_beq
passed0 = refl

refresh_due_lem_example :
    ((has_id 3 (due_ids 50 lists0) ≡ true)
      × (row : ListRow) × (find_list 3 (refresh_due none (λ id. world0) 50 lists0).0 ≡ some row)
      × (row.last_refreshed_at ≡ some 90))
    ⊎ ((has_id 3 (due_ids 50 lists0) ≡ false)
        × (find_list 3 (refresh_due none (λ id. world0) 50 lists0).0 ≡ find_list 3 lists0))
refresh_due_lem_example = refresh_due_lem none (λ id. world0) 50 lists0 3 passed0
