-- ===== src/Dashboard/Requests/Replay.antt =====
-- The table `targets` and what the tabs are told of it.
use mathlib.Core.List.Sublistᴰ as SublistD
use mathlib.Core.List.{Sublistᴰ}
use pulse_monitor.Prelude.Sublists.{sublist-append}
use pulse_monitor.Dashboard.Requests.Changes.{
  apply_all, announce_all, apply_all-IsSame, apply_all-append, announce_all-append, IsSound,
  Accounts,
}
use pulse_monitor.Dashboard.Requests.Commits.{Commits, commit-Commits, completed, serve-completed}
use pulse_monitor.Dashboard.Requests.Goroutines.{Outcome, answers, changes, commit}
use pulse_monitor.Dashboard.Requests.{Request, serve, serve_all}
use pulse_monitor.Handlers.Targets.{Uri, Served}
use pulse_monitor.Handlers.Writer.{write_header}
use pulse_monitor.Handlers.Views.{View, Rendered}
use pulse_monitor.Prelude.{
  subst, refl, sym, ap, ◌∙◌, List, [], ◌∷◌, ◌++◌, Option, arith, inl, inr, length-append,
  All-append,
}
use pulse_monitor.Sse.Hub.{Hub}
use pulse_monitor.Store.Database.{Database}
use pulse_monitor.Text.{Text}

-- The accounts of one request.
module _ (db : Database) (render : View → Rendered) (parse : Text → Option Uri) where
  abbrev Serves : Option Hub → db.State → Served db.State → Type 0
  Serves h s d =
      Accounts db.row_id render parse h d.hub (db.table s) (db.table d.store) (d.response ∷ [])

  completed-Accounts :
      (h : Option Hub) (s : db.State) (o : Outcome) (s' : db.State)
      → Commits db.row_id parse (db.table s) (db.table s') o
      → Serves h s (completed render h (o, s'))
  unfolding write_header
  completed-Accounts h s (answers r) s' (n, k) = elim k [
    | inl same ↦ record {
      made = [];
      told = [];
      announced = refl;
      tracked = same;
      within = Sublistᴰ.slnil;
      counted = rw n refl;
      silent = omega arith;
      sound = tt;
    }
    | inr (e, (c, (same, m))) ↦ record {
      made = c ∷ [];
      told = [];
      announced = refl;
      tracked = same;
      within = SublistD.cons Sublistᴰ.slnil;
      counted = rw n refl;
      silent = rw e (omega arith);
      sound = (m, tt);
    }
  ]
  completed-Accounts h s (changes c) s' (same, m) = record {
    made = c ∷ [];
    told = c ∷ [];
    announced = refl;
    tracked = same;
    within = SublistD.cons-cons refl Sublistᴰ.slnil;
    counted = refl;
    silent = omega arith;
    sound = (m, tt);
  }

  serve-Accounts :
      (q : Request) (h : Option Hub) (s : db.State) → Serves h s (serve db render parse q h s)
  serve-Accounts q h s =
      let (o, s') = commit db parse q s in
      subst (Serves h s) (sym (serve-completed db render parse q h s))
        (completed-Accounts h s o s' (commit-Commits db parse q s))

-- However the requests to create and to delete targets follow one another, whatever their forms and
-- ids and whatever the database answers, the table at the end is the table at the start with a list of
-- changes made in order, where the id of a deletion is the one that Postgres reads in the request. The
-- hub was given the events of some of these changes, in order, and no other: one for each response
-- with status 200. The changes that the hub was not given are at most as many as the responses with status
-- 500. Every target that was added has a URL that can be monitored.
pub serve_all-Accounts :
    (db : Database) (render : View → Rendered) (parse : Text → Option Uri) (qs : List Request)
    (h : Option Hub) (s : db.State)
    → let (rs, h', s') = serve_all db render parse qs h s in
      Accounts db.row_id render parse h h' (db.table s) (db.table s') rs
unfolding serve_all
serve_all-Accounts db render parse [] h s = record {
  made = [];
  told = [];
  announced = refl;
  tracked = λ id. refl;
  within = Sublistᴰ.slnil;
  counted = refl;
  silent = omega arith;
  sound = tt;
}
serve_all-Accounts db render parse (q ∷ qs) h s =
    let d = serve db render parse q h s in
    let a = serve-Accounts db render parse q h s in
    let b = serve_all-Accounts db render parse qs d.hub d.store in
    record {
      made = a.made ++ b.made;
      told = a.told ++ b.told;
      announced =
          b.announced
          ∙ ap (announce_all render b.told) a.announced
          ∙ sym (announce_all-append render a.told b.told h);
      tracked = λ id.
          b.tracked id
          ∙ apply_all-IsSame db.row_id b.made (apply_all db.row_id a.made (db.table s))
              (db.table d.store) a.tracked id
          ∙ ap (λ t. t id) (sym (apply_all-append db.row_id a.made b.made (db.table s)));
      within = sublist-append a.told a.made b.told b.made a.within b.within;
      counted = omega (arith, length-append a.told b.told, a.counted, b.counted);
      silent =
          omega
            (arith, length-append a.told b.told, length-append a.made b.made, a.silent, b.silent);
      sound = All-append (IsSound parse) a.made b.made a.sound b.sound;
    }
