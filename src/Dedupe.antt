-- ===== src/Dedupe.antt =====
-- The deduplication of raw articles, app/batch/steps/dedupe_articles.py, with the inserts of
-- app/db/repositories/news_article_processed_repo.py. The hash and the duplicate key of an article
-- are derived already, and both are numbers; the fetch of an article's content is an argument.
pub mod Linked
pub mod Stored
pub mod Runs
pub mod Step
pub mod Uncovered
use stockapp.Prelude.{
  ℕ, ◌+◌, suc, Bool, true, false, ◌&&◌, Option, none, some, List, [], ◌∷◌, ◌++◌, ◌==◌, map, any,
  length, is_some, if◌then◌else◌,
}
use stockapp.Keys.{member, distinct}
use stockapp.Queue.Table.{find}

pub record RawArticle : Type 0 where
  pub raw_article_id : ℕ
  pub market_type : ℕ
  pub duplicate_key : ℕ
  pub dedupe_hash : ℕ

-- A row of news_article_processed, with the content that it was made from.
pub record Processed (C : Type 0) : Type 0 where
  pub processed_article_id : ℕ
  pub business_date : ℕ
  pub market : ℕ
  pub hash : ℕ
  pub content : C

-- The two tables that the step writes.
pub record Tables (C : Type 0) : Type 0 where
  pub processed : List (Processed C)
  pub links : List (ℕ × ℕ)
  pub next_id : ℕ

-- raw_article_targets[(id, market)] = article: a key that is there keeps its place. The market of
-- an article is that of the window it was asked for.
abbrev same_target : RawArticle → RawArticle → Bool
same_target a b = a.raw_article_id == b.raw_article_id && a.market_type == b.market_type

unfoldable pub put_target : RawArticle → List RawArticle → List RawArticle
put_target article [] = article ∷ []
put_target article (a ∷ articles) =
    let rest = put_target article articles in
    if same_target a article then article ∷ articles else a ∷ rest

unfoldable pub put_window : List RawArticle → List RawArticle → List RawArticle
put_window [] targets = targets
put_window (article ∷ window) targets = put_window window (put_target article targets)

-- The first article of each duplicate key, with the keys seen before.
unfoldable pub unique_targets : List ℕ → List RawArticle → List RawArticle
unique_targets seen [] = []
unique_targets seen (a ∷ articles) =
    let rest = unique_targets (a.duplicate_key ∷ seen) articles in
    let skip = unique_targets seen articles in
    if member a.duplicate_key seen then skip else a ∷ rest

module _ {C : Type 0} where
  -- content_by_key, where `fetch` has the fallback for a provider that raises.
  abbrev pub content_by_key : (RawArticle → C) → List RawArticle → List (ℕ × C)
  content_by_key fetch targets = map (λ (a : RawArticle). (a.duplicate_key, fetch a)) targets

  abbrev pub content_of : ℕ → List (ℕ × C) → Option C
  content_of key [] = none
  content_of key ((k, c) ∷ contents) = if k == key then some c else content_of key contents

  -- WHERE business_date = ... AND market_type = ... AND dedupe_hash = ...
  abbrev pub has_hash : ℕ → RawArticle → Processed C → Bool
  has_hash date a p =
      p.business_date == date && (p.market == a.market_type && p.hash == a.dedupe_hash)

  -- INSERT ... ON CONFLICT DO NOTHING, else the row that is there. The conflict takes an identity
  -- value all the same.
  unfoldable pub insert_processed_article : ℕ → RawArticle → C → Tables C → Processed C × Tables C
  insert_processed_article date a c t =
      let row : Processed C = record {
        processed_article_id = t.next_id;
        business_date = date;
        market = a.market_type;
        hash = a.dedupe_hash;
        content = c;
      } in
      elim (find (has_hash date a) t.processed) [
        | some existing ↦ (existing, record t { next_id = t.next_id + 1 })
        | none ↦ (row, record t { processed = t.processed ++ row ∷ []; next_id = t.next_id + 1 })
      ]

-- INSERT ... ON CONFLICT (raw_article_id, processed_article_id) DO NOTHING
abbrev pub holds_link : ℕ × ℕ → List (ℕ × ℕ) → Bool
holds_link l links = any (λ (k : ℕ × ℕ). k.0 == l.0 && k.1 == l.1) links

abbrev pub add_link : ℕ × ℕ → List (ℕ × ℕ) → List (ℕ × ℕ)
add_link l links = if holds_link l links then links else links ++ l ∷ []

-- A group of duplicates: its market, its key and its processed article.
pub record Group : Type 0 where
  pub group_market : ℕ
  pub group_key : ℕ
  pub processed_id : ℕ

abbrev pub is_group : ℕ → ℕ → Group → Bool
is_group market key g = g.group_market == market && g.group_key == key

-- seen_duplicate_groups.get((market_type, duplicate_key))
abbrev pub group_of : RawArticle → List Group → Option Group
group_of a groups = find (is_group a.market_type a.duplicate_key) groups

-- ids.add(id)
abbrev pub add_id : ℕ → List ℕ → List ℕ
add_id id ids = if member id ids then ids else id ∷ ids

-- processed_ids_by_market.setdefault(market_type, set()).add(id)
unfoldable pub add_market : ℕ → ℕ → List (ℕ × List ℕ) → List (ℕ × List ℕ)
add_market market id [] = (market, id ∷ []) ∷ []
add_market market id ((m, ids) ∷ markets) =
    let rest = add_market market id markets in
    if m == market then (m, add_id id ids) ∷ markets else (m, ids) ∷ rest

-- What the loop over the raw articles keeps.
pub record Loop (C : Type 0) : Type 0 where
  pub groups : List Group
  pub processed_ids : List ℕ
  pub ids_by_market : List (ℕ × List ℕ)
  pub tables : Tables C

module _ {C : Type 0} where
  abbrev pub link : RawArticle → ℕ → Loop C → Loop C
  link a id st = record st {
    processed_ids = add_id id st.processed_ids;
    ids_by_market = add_market a.market_type id st.ids_by_market;
    tables = record st.tables { links = add_link (a.raw_article_id, id) st.tables.links };
  }

  -- The first article of a group: its content is looked up, and a missing key is a KeyError.
  unfoldable pub new_group : ℕ → RawArticle → Loop C → Option C → Option (Loop C)
  new_group date a st none = none
  new_group date a st (some c) =
      let (p, tables) = insert_processed_article date a c st.tables in
      let g : Group = record {
        group_market = a.market_type;
        group_key = a.duplicate_key;
        processed_id = p.processed_article_id;
      } in
      some (link a p.processed_article_id (record st { groups = g ∷ st.groups; tables = tables }))

  unfoldable pub dedupe_article : ℕ → List (ℕ × C) → RawArticle → Loop C → Option (Loop C)
  dedupe_article date contents a st = elim (group_of a st.groups) [
    | some g ↦ some (link a g.processed_id st)
    | none ↦ new_group date a st (content_of a.duplicate_key contents)
  ]

  unfoldable pub dedupe_articles : ℕ → List (ℕ × C) → List RawArticle → Loop C → Option (Loop C)
  dedupe_articles date contents [] st = some st
  dedupe_articles date contents (a ∷ articles) st = elim (dedupe_article date contents a st) [
    | none ↦ none
    | some next ↦ dedupe_articles date contents articles next
  ]

  -- The step after the windows are read: the contents of the unique targets, and the loop.
  unfoldable pub run_dedupe : ℕ → (RawArticle → C) → List RawArticle → Tables C → Option (Loop C)
  run_dedupe date fetch articles tables =
      dedupe_articles date (content_by_key fetch (unique_targets [] articles)) articles
        (record { groups = []; processed_ids = []; ids_by_market = []; tables = tables })
