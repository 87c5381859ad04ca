-- ===== src/Tests/Synced.antt =====
-- Both service controllers at a server that keeps its slices in a list.
use fleetboard.Prelude.{ℕ, map, All, true, ◌≡◌, refl, false, List, [], ◌∷◌, none, ok}
use fleetboard.Prelude.Text.{Text, codes, text_eq, has_prefix}
use fleetboard.Prelude.Dict.{lookup, delete}
use fleetboard.Slices.{contains_string, contains_prefix}
use fleetboard.Resync.{any_change, should_patch_be_ignored, resource_need_resync}
use fleetboard.Controllers.Inter.{settled}
use fleetboard.Services.Api.{SliceApi, Slice, Content, selects}
use fleetboard.Services.Apply.{
  apply_once, apply_slice, apply_all, run, turn, wait, assign, unraced, starts, quiet, started,
  goroutine,
}
use fleetboard.Services.Sync.{delete_others, remove_nonexistent, source_names, sync_slices}
use fleetboard.Services.Sync.Applied.{Applied}
use fleetboard.Services.Sync.Turns.{DistinctKeys}
use fleetboard.Services.Sync.Collected.{apply_all-Applied}
use fleetboard.Services.Sync.Removed.{Cleared, remove_nonexistent-Cleared}
use fleetboard.Services.Imports.{
  Import, Cluster, add_initial_info, fork_endpoint_slice, app_finalizer,
}
use fleetboard.Services.Imports.Handler.{Origin, fork_into, handle_import, import_labels}
use fleetboard.Services.Imports.Synced.{Separate, Ready, SyncedImport, handle_import-Synced}
use fleetboard.Tests.Server.{server, view, without, selected, texts_eq}

abbrev pub some_content : Content
some_content = record { address_type = codes "IPv4"; endpoints = codes "10.1.0.9" ∷ []; ports = [] }

abbrev pub other_content : Content
other_content = record {
  address_type = codes "IPv4";
  endpoints = codes "10.1.0.7" ∷ [];
  ports = [];
}

abbrev pub web : Import
web = record {
  name = codes "web";
  namespace = codes "shop";
  headless = false;
  deleting = false;
  ips = codes "10.0.1.5" ∷ [];
  finalizers = app_finalizer ∷ [];
}

abbrev pub slice_of : Text → Text → Content → Slice
slice_of namespace name content = record {
  name = name;
  namespace = namespace;
  labels = import_labels web;
  content = content;
}

-- One slice is stale, and the other has changed since.
abbrev before_sync : List Slice
before_sync =
    slice_of (codes "shop") (codes "a") other_content
    ∷ slice_of (codes "shop") (codes "b") other_content
    ∷ []

abbrev sources : List Slice
sources =
    slice_of (codes "op") (codes "a") some_content
    ∷ slice_of (codes "op") (codes "c") other_content
    ∷ []

abbrev targets : List Slice
targets =
    slice_of (codes "shop") (codes "a") some_content
    ∷ slice_of (codes "shop") (codes "c") other_content
    ∷ []

-- The goroutines take turns, the second one first.
abbrev pub turns : List ℕ
turns = 1 ∷ 1 ∷ 0 ∷ 1 ∷ 0 ∷ []

apply_all_settled : (apply_all server turns before_sync targets).1 ≡ ok ([], none)
unfolding apply_all run turn wait assign apply_slice apply_once server view texts_eq
    resource_need_resync any_change should_patch_be_ignored contains_string contains_prefix
    has_prefix text_eq
apply_all_settled = refl

targets_fair : unraced server turns (started server before_sync) (map goroutine targets) ≡ true
unfolding unraced turn starts quiet
targets_fair = refl

targets_distinct : DistinctKeys targets
unfolding text_eq
targets_distinct = ((refl, tt), (tt, tt))

apply_all-Applied_example :
    All (Applied server (apply_all server turns before_sync targets).0) targets
apply_all-Applied_example =
    apply_all-Applied server turns before_sync targets none targets_fair targets_distinct
      apply_all_settled

listed_before : SliceApi.list server before_sync (codes "shop") (import_labels web) ≡ ok before_sync
unfolding server selected selects lookup text_eq
listed_before = refl

removed :
    (remove_nonexistent server before_sync
      (ok sources)
      []
      false
      (codes "shop")
      (import_labels web)).1
    ≡ ok sources
unfolding remove_nonexistent delete_others source_names server selected selects lookup without
    contains_string text_eq
removed = refl

remove_nonexistent-Cleared_example :
    Cleared server before_sync
      (remove_nonexistent server before_sync
        (ok sources)
        []
        false
        (codes "shop")
        (import_labels web)).0
      (codes "shop")
      (import_labels web)
      (source_names [] false sources)
    × (sources ≡ sources)
remove_nonexistent-Cleared_example =
    remove_nonexistent-Cleared server before_sync [] false (codes "shop") (import_labels web)
      sources before_sync sources listed_before removed

abbrev hub : Cluster
hub = record {
  State = List Slice;
  acquire_ip = λ t. (t, ok (codes "10.0.1.6"));
  release_ip = λ t ip. (t, none);
  delete_slices = λ t namespace name. (t, none);
  update_import = λ t si. (t, none);
}

abbrev origin : Origin
origin = record { operator_namespace = codes "op"; slices = λ namespace selector. ok sources }

separate : Separate hub server
separate = record { acquire_keeps = λ t n m. refl; update_keeps = λ t si n m. refl }

ready : Ready hub server separate origin web (codes "shop") sources
unfolding source_names contains_string server text_eq
ready = record {
  found = refl;
  distinct = (refl, (refl, tt));
  listable = λ u. (selected u (import_labels web), refl);
}

fair :
    (u : List Slice)
    → unraced server turns
        (started server u)
        (map goroutine (map (fork_into (codes "shop")) sources))
      ≡ true
unfolding unraced turn starts quiet
fair u = refl

handled : (handle_import hub server origin turns before_sync (codes "shop") (ok web)).1 ≡ settled
unfolding handle_import add_initial_info sync_slices remove_nonexistent delete_others source_names
    apply_all run turn wait assign apply_slice apply_once server view without selected selects
    lookup delete texts_eq fork_endpoint_slice resource_need_resync any_change
    should_patch_be_ignored contains_string contains_prefix has_prefix text_eq
handled = refl

handle_import-Synced_example :
    SyncedImport hub server separate before_sync
      (handle_import hub server origin turns before_sync (codes "shop") (ok web)).0
      (codes "shop")
      web
      sources
handle_import-Synced_example =
    handle_import-Synced hub server separate origin web (codes "shop") sources ready before_sync
      turns fair refl handled
