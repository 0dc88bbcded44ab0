-- ===== src/Node/Select/Tests.antt =====
-- Runs of the selection, and its theorems at concrete inputs.
use my_websocket_net.Prelude.{◌≡◌, refl, ◌⊎◌, true, none, some, List, [], ◌∷◌}
use my_websocket_net.Prelude.Map.{lookup, insert}
use my_websocket_net.Prelude.Text.{text, same_text, text_ltb}
use my_websocket_net.Protocol.Canon.{
  Canonical, str, array, nil, cons, object_of, u64_decimal, collect, put, get_str, get_array,
}
use my_websocket_net.Routing.Destination.{tcp, Destination}
use my_websocket_net.Node.Select.{
  ServiceDirectory, Candidate, unknown, known_empty, from_peer_list, read_entries, contains, find,
  advertises, uninformed, select_hub,
}
use my_websocket_net.Node.Select.Directory.{NotOlder, apply_all, apply_all_never_older}
use my_websocket_net.Node.Select.Choice.{Finds, NonePasses, IsFirst, select_service}

abbrev web_entry : Canonical
web_entry = object_of (
    (text "node", str (text "n"))
    ∷ (text "name", str (text "web"))
    ∷ (text "proto", str (text "tcp"))
    ∷ (text "revision", u64_decimal 4)
    ∷ [])

abbrev nameless : Canonical
nameless = object_of ((text "node", str (text "n")) ∷ [])

abbrev second : Canonical
second = object_of (
    (text "version", u64_decimal 2)
    ∷ (text "services", array (cons web_entry (cons nameless nil)))
    ∷ [])

abbrev first : Canonical
first = object_of ((text "version", u64_decimal 1) ∷ [])

reads_web : contains (from_peer_list second) (text "n") (text "web") ≡ true
unfolding contains from_peer_list read_entries lookup insert collect put text_ltb same_text get_str
    get_array
reads_web = refl

abbrev listed : ServiceDirectory
listed = record { known = true; services = []; revision = some 2 }

apply_all_never_older_example :
    NotOlder
      (apply_all unknown (second ∷ [])).revision
      (apply_all (apply_all unknown (second ∷ [])) (first ∷ [])).revision
apply_all_never_older_example = apply_all_never_older (second ∷ []) (first ∷ [])

abbrev bare : Candidate
bare = record { hub_id = text "a"; ready = true; healthy = true; directory = none }

abbrev informed : Candidate
informed = record {
  hub_id = text "b";
  ready = true;
  healthy = true;
  directory = some (record known_empty {
    services = ((text "n", text "web"), record { proto = some tcp; revision = none }) ∷ [];
  });
}

abbrev hubs : List Candidate
hubs = bare ∷ informed ∷ []

picks_the_advertising_hub :
    select_hub hubs (Destination.service (text "n") (text "web") none) ≡ some informed
unfolding select_hub find contains lookup same_text
picks_the_advertising_hub = refl

select_service_example :
    ((c : Candidate) × (select_hub hubs (Destination.service (text "n") (text "web") none) ≡ some c)
      × IsFirst (advertises (text "n") (text "web")) c hubs)
    ⊎ (NonePasses (advertises (text "n") (text "web")) hubs
        × Finds uninformed hubs
            (select_hub hubs (Destination.service (text "n") (text "web") none)))
select_service_example = select_service hubs (text "n") (text "web") none
