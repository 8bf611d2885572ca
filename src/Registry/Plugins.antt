-- ===== src/Registry/Plugins.antt =====
-- registry/store.py: the methods on plugins.
use Prim.Native.String.{◌++◌ as text_append}
use geo_nexus_sdk.Base.{
  String, Bool, true, false, ◌||◌, Option, none, some, List, [], ◌∷◌, map, codes, lower, has_text,
  leb_text, or_text, given, lookup, insert, remove, has, values, keep, if◌then◌else◌, return, raise,
  ◌==◌,
}
use geo_nexus_sdk.Registry.Models.{
  status_approved, status_rejected, PluginEntry, address_of, address,
}
use geo_nexus_sdk.Registry.Store.{
  Codec, RegistryStore, Method, set_plugins, plugin_conflict, plugin_not_found,
}

-- `max(same, key=registered_at)`: the first of the latest.
unfoldable pub latest : PluginEntry → List PluginEntry → PluginEntry
latest e [] = e
latest e (f ∷ fs) = latest (if leb_text f.registered_at e.registered_at then e else f) fs

abbrev pub latest_plugin : List PluginEntry → Option PluginEntry
latest_plugin [] = none
latest_plugin (e ∷ es) = some (latest e es)

-- The key of `sorted`: the name, then the time.
abbrev pub plugin_before : PluginEntry → PluginEntry → Bool
plugin_before e f =
    if e.name == f.name then leb_text e.registered_at f.registered_at else leb_text e.name f.name

unfoldable pub insert_plugin : PluginEntry → List PluginEntry → List PluginEntry
insert_plugin e [] = e ∷ []
insert_plugin e (f ∷ fs) = if plugin_before e f then e ∷ f ∷ fs else f ∷ insert_plugin e fs

unfoldable pub sort_plugins : List PluginEntry → List PluginEntry
unfolding insert_plugin
sort_plugins [] = []
sort_plugins (e ∷ es) = insert_plugin e (sort_plugins es)

-- " ".join(tags)
abbrev pub join_words : List String → String
join_words [] = ""
join_words (t ∷ []) = t
join_words (t ∷ u ∷ ts) = text_append t (text_append " " (join_words (u ∷ ts)))

-- What a query is looked for in.
unfoldable pub plugin_text : PluginEntry → String
plugin_text e =
    text_append e.name
      (text_append " " (text_append e.description (text_append " " (join_words e.tags))))

unfoldable pub plugin_matches : String → PluginEntry → Bool
unfolding plugin_text has_text
plugin_matches query e =
    (query == "") || has_text (map lower (codes query)) (map lower (codes (plugin_text e)))

-- `entry.submitted_by or by`, where a reviewer is named.
abbrev pub submitter : Option String → Option String → Option String
submitter old by = if given by then some (or_text old (or_text by "")) else old

-- What a review writes into the entry.
unfoldable pub reviewed_plugin : Bool → Option String → Option String → PluginEntry → PluginEntry
reviewed_plugin approved note by e = record e {
  status = if approved then status_approved else status_rejected;
  review_note = note;
  submitted_by = submitter e.submitted_by by;
}

module _ {J : Type 0} where
  unfoldable pub get_plugin : String → Option String → RegistryStore J → Option PluginEntry
  unfolding address_of latest
  get_plugin name version s =
      if given version
      then lookup (address_of name (or_text version "")) s.plugins
      else latest_plugin (keep (λ e. e.name == name) (values s.plugins))

  unfoldable pub list_plugins : Option String → RegistryStore J → List PluginEntry
  unfolding sort_plugins
  list_plugins status s = sort_plugins (
      if given status
      then keep (λ e. e.status == or_text status "") (values s.plugins)
      else values s.plugins)

  unfoldable pub search_plugins : String → Option String → RegistryStore J → List PluginEntry
  unfolding list_plugins plugin_matches
  search_plugins query status s = keep (plugin_matches query) (list_plugins status s)

module _ {J : Type 0} (codec : Codec J) where
  unfoldable pub register_plugin : PluginEntry → Method codec Unit
  unfolding address_of
  register_plugin entry s = elim (has (address entry) s.plugins) [
    | true ↦ (raise (plugin_conflict (address entry)), s)
    | false ↦ (return tt, set_plugins codec (insert (address entry) entry s.plugins) s)
  ]

  -- The entry is changed in place.
  unfoldable pub review_plugin :
      String → String → Bool → Option String → Option String → Method codec PluginEntry
  unfolding address_of reviewed_plugin
  review_plugin name version approved note by s =
      elim (lookup (address_of name version) s.plugins) [
        | none ↦ (raise (plugin_not_found (address_of name version)), s)
        | some entry ↦
            let updated = reviewed_plugin approved note by entry in
            (
              return updated,
              set_plugins codec (insert (address_of name version) updated s.plugins) s,
            )
      ]

  unfoldable pub remove_plugin : String → String → Method codec PluginEntry
  unfolding address_of
  remove_plugin name version s = elim (lookup (address_of name version) s.plugins) [
    | none ↦ (raise (plugin_not_found (address_of name version)), s)
    | some entry ↦ (return entry, set_plugins codec (remove (address_of name version) s.plugins) s)
  ]
