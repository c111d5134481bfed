-- ===== src/Cli/Server/Releases.antt =====
-- What is open when a server command returns is what its closer releases, but for the storage client.
use mathlib.Core.List.{append-nil}
use pmap.Base.{◌≡◌, refl, ◌∙◌, ap, Option, List, [], ◌∷◌, ◌++◌, Bytes}
use pmap.Base.Dict.{Dict}
use pmap.Errors.{Err, Result, ok, err, panicked}
use pmap.Errors.Fallible.{Fallible}
use pmap.Api.{ResourceMapping, Structs}
use pmap.Server.Config.{HandlerConfig, MappingHandlerConfig}
use pmap.Server.Handler.{EventHandler}
use pmap.Mapping.Inventory.{AnnoValue, AssetClient}
use pmap.Cli.Start.{
  Handle, pubsub_client, topic, asset_client, storage_client, Closers, State, Start, ◌>>=◌, lift,
  open_handle, acquire, stop_later, proceed,
}
use pmap.Cli.Server.{Cloud, checked, policy_run_unstarted, mapping_run_unstarted}

-- What is assumed of `multicloser`: a closer has the functions that were appended, in their order.
pub record IsLawful {C : Type 0} (closers : Closers C) : Type 0 where
  pub releases : C → List Handle
  pub releases-nil_closer : releases closers.nil_closer ≡ []
  pub releases-append :
      (c : C) (hs : List Handle) → releases (closers.append c hs) ≡ releases c ++ hs

-- The handles but for that of the storage client.
unfoldable pub but_storage : List Handle → List Handle
but_storage [] = []
but_storage (storage_client ∷ hs) = but_storage hs
but_storage (pubsub_client ∷ hs) = pubsub_client ∷ but_storage hs
but_storage (topic id ∷ hs) = topic id ∷ but_storage hs
but_storage (asset_client ∷ hs) = asset_client ∷ but_storage hs

but_storage-append :
    (hs ks : List Handle) → but_storage (hs ++ ks) ≡ but_storage hs ++ but_storage ks
unfolding but_storage
but_storage-append [] ks = refl
but_storage-append (storage_client ∷ hs) ks = but_storage-append hs ks
but_storage-append (pubsub_client ∷ hs) ks = ap (λ l. pubsub_client ∷ l) (but_storage-append hs ks)
but_storage-append (topic id ∷ hs) ks = ap (λ l. topic id ∷ l) (but_storage-append hs ks)
but_storage-append (asset_client ∷ hs) ks = ap (λ l. asset_client ∷ l) (but_storage-append hs ks)

module _ {C : Type 0} (closers : Closers C) (laws : IsLawful closers) where
  -- The closer releases what is open, but for the storage client.
  abbrev pub Covered : State C → Type 0
  Covered s = laws.releases s.closer ≡ but_storage s.opened

  record Keeps {A : Type 0} (m : Start C A) : Type 0 where
    kept : (s : State C) → Covered s → Covered (m s).1

  lift-Keeps : {A : Type 0} (r : Result A) → Keeps (lift r)
  unfolding lift
  lift-Keeps r = record { kept = λ s h. h }

  bind-Keeps :
      {A B : Type 0} {m : Start C A} {f : A → Start C B}
      → Keeps m
      → ((a : A) → Keeps (f a))
      → Keeps (m >>= f)
  unfolding ◌>>=◌
  bind-Keeps {A = A} {B = B} {m = m} {f = f} first rest = record {
    kept = λ s h. go (m s).0 (m s).1 (first.kept s h);
  }
    where
      go : (r : Result A) (t : State C) → Covered t → Covered (proceed f (r, t)).1
      go (ok a) t h = (rest a).kept t h
      go (err e) t h = h
      go panicked t h = h

  stop_later-Keeps : {hs : List Handle} → but_storage hs ≡ hs → Keeps (stop_later closers hs)
  unfolding stop_later
  stop_later-Keeps {hs} all = record {
    kept = λ s h. laws.releases-append s.closer hs ∙ rw (h, but_storage-append, all);
  }

  acquire-Keeps :
      {A : Type 0} {h : Handle} (r : Result A)
      → but_storage (h ∷ []) ≡ h ∷ []
      → Keeps (acquire closers h r)
  unfolding acquire
  acquire-Keeps {A = A} {h = h} r all = record { kept = λ s c. go s c r }
    where
      go : (s : State C) → Covered s → (r : Result A) → Covered (acquire closers h r s).1
      go s c (ok a) = laws.releases-append s.closer (h ∷ []) ∙ rw (c, but_storage-append, all)
      go s c (err e) = c
      go s c panicked = c

  open_handle-Keeps : {A : Type 0} (r : Result A) → Keeps (open_handle {C = C} storage_client r)
  unfolding open_handle but_storage
  open_handle-Keeps {A = A} r = record { kept = λ s c. go s c r }
    where
      go :
          (s : State C)
          → Covered s
          → (r : Result A) → Covered (open_handle {C = C} storage_client r s).1
      go s c (ok a) = rw (but_storage-append, append-nil) c
      go s c (err e) = c
      go s c panicked = c

  module _ {Client Srv W : Type 0} (quote_list : List Bytes → Bytes)
      (cloud : Cloud Client Srv W) where
    abbrev start : State C
    start = record { closer = closers.nil_closer; opened = [] }

    checked-Keeps :
        {Cfg : Type 0} (text : Bytes) (check : Cfg → Option Err)
        (parsed : Result (Cfg × List Bytes))
        → Keeps (checked closers quote_list cloud text check parsed)
    checked-Keeps text check parsed =
        bind-Keeps (lift-Keeps _) λ p. bind-Keeps (lift-Keeps _) λ cfg. lift-Keeps _

    policy-Keeps :
        {T : Type 0} (parsed : Result (HandlerConfig × List Bytes))
        → Keeps (policy_run_unstarted closers quote_list cloud {T = T} parsed)
    unfolding policy_run_unstarted but_storage
    policy-Keeps parsed = bind-Keeps (checked-Keeps _ _ _) λ cfg.
        bind-Keeps (acquire-Keeps _ refl) λ client.
          bind-Keeps (stop_later-Keeps refl)
            λ _. bind-Keeps (open_handle-Keeps _) λ h. bind-Keeps (lift-Keeps _) λ srv. lift-Keeps _

    -- With closers that keep what is appended, on every path through the start of the policy
    -- server, failures and panics included, the closer that is returned, or that there is at a panic,
    -- releases, in the order of opening, all that was opened but the storage client.
    pub policy_run_unstarted-Covered :
        (T : Type 0) (parsed : Result (HandlerConfig × List Bytes))
        → Covered (policy_run_unstarted closers quote_list cloud {T = T} parsed start).1
    unfolding but_storage
    policy_run_unstarted-Covered T parsed =
        (policy-Keeps {T = T} parsed).kept start laws.releases-nil_closer

    module _ {Time Policy S Value : Type 0} (structs : Structs S Value) (quote : Bytes → Bytes)
        (to_proto_struct : Dict (Dict (AnnoValue Time Policy)) → Fallible S)
        (new_asset_client : Result (AssetClient Time Policy))
        (parsed : Result (MappingHandlerConfig × List Bytes)) where
      abbrev pub mapping_start : Start C (Srv × EventHandler (ResourceMapping S) W)
      mapping_start =
          mapping_run_unstarted closers quote_list cloud structs quote to_proto_struct
            new_asset_client parsed

      mapping-Keeps : Keeps mapping_start
      unfolding mapping_run_unstarted but_storage
      mapping-Keeps = bind-Keeps (checked-Keeps _ _ _) λ cfg.
          bind-Keeps (acquire-Keeps _ refl) λ client. bind-Keeps (stop_later-Keeps refl) λ _.
            bind-Keeps (acquire-Keeps _ refl) λ assets. bind-Keeps (lift-Keeps _) λ p.
              bind-Keeps (open_handle-Keeps _) λ h. bind-Keeps (lift-Keeps _) λ srv. lift-Keeps _

      -- With closers that keep what is appended, on every path through the start of the mapping
      -- server, failures and panics included, the closer that is returned, or that there is at a
      -- panic, releases, in the order of opening, all that was opened but the storage client.
      pub mapping_run_unstarted-Covered : Covered (mapping_start start).1
      unfolding but_storage
      mapping_run_unstarted-Covered = mapping-Keeps.kept start laws.releases-nil_closer
