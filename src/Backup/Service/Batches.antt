-- ===== src/Backup/Service/Batches.antt =====
-- What the request log holds once the batcher has handed on what it was given.
use front_basicrum_go.Base.{
  ℕ, All, codes, Bytes, List, [], ◌∷◌, ◌++◌, append_assoc, append-nil, false, ◌&&◌, Option, ◌≡◌,
  ◌∙◌, sym, ap, refl, arith, eqb, eqb_iff, if◌then◌else◌,
}
use mathlib.Core.Path.{subst}
use front_basicrum_go.Base.Assoc.{lookup, Distinct, lookup-nil, lookup-cons, lookup-Fresh}
use front_basicrum_go.Base.Outcome.{returns}
use front_basicrum_go.Backup.Clock.{date_utc, make_hour_name}
use front_basicrum_go.Backup.Disk.{Root, no_faults}
use front_basicrum_go.Backup.Lines.{
  Param, values, text_of, make_backup_list, save_lines_to_file, save_backup_list, do_batch,
}
use front_basicrum_go.Backup.Lines.Grouping.{line_for, lines_for, make_backup_list-lines}
use front_basicrum_go.Backup.Lines.Saving.{
  read_file, is_blocked, save_lines_to_file-read, save_lines_to_file-free,
}
use front_basicrum_go.Backup.Service.{Single, mark, save_single, Batch, work}
use front_basicrum_go.Backup.Service.Naming.{
  IsNamed, HasHost, HasHostParam, backup_items-IsNamed, All-append,
}
use front_basicrum_go.Values.{Values, get-add_ne}
use front_basicrum_go.Types.{Event}

-- No plain file stands in the way of any host and any day.
abbrev pub IsFree : Root → Type 0
IsFree root = (host : Bytes) (now : ℕ) → is_blocked host (date_utc now) root ≡ false

-- The lines, where they go to the file of the day and the hour.
abbrev pub here : ℕ → Bytes → Bytes → Bytes → Bytes
here now date name lines =
    if eqb (date_utc now) date && eqb (make_hour_name now) name then lines else []

module _ (clock : Bytes → ℕ) where
  save_list-IsFree :
      (m : List (Bytes × Bytes)) (root : Root)
      → IsNamed m
      → IsFree root
      → IsFree (save_backup_list no_faults clock m root)
  unfolding save_backup_list
  save_list-IsFree [] root n f = f
  save_list-IsFree ((host, lines) ∷ rest) root (h, n) f =
      save_list-IsFree rest (save_lines_to_file no_faults (clock host) host lines root) n λ k later.
        save_lines_to_file-free (clock host) host lines k (date_utc later) root h
          (f host (clock host)) (f k later) (f host later)

  save_list-read :
      (m : List (Bytes × Bytes)) (root : Root) (host date name : Bytes)
      → IsNamed m
      → Distinct m
      → IsFree root
      → read_file host date name (save_backup_list no_faults clock m root)
        ≡ read_file host date name root ++ here (clock host) date name (text_of (lookup host m))
  unfolding save_backup_list
  save_list-read [] root host date name n d f =
      ground (arith, lookup-nil {V = Bytes} host, append-nil (read_file host date name root))
  save_list-read ((k, lines) ∷ rest) root host date name (h, n) (fresh, d) f =
      let root' = save_lines_to_file no_faults (clock k) k lines root in
      save_list-read rest root' host date name n d
        (save_list-IsFree ((k, lines) ∷ []) root (h, tt) f)
      ∙ ground (
        arith,
        save_lines_to_file-read (clock k) k lines host date name root h (f k (clock k)),
        lookup-cons k host lines rest,
        eqb_iff k host,
        lookup-Fresh k rest fresh,
        append-nil (read_file host date name root),
        append-nil (read_file host date name root ++ lines),
      )

module _ (parse_url : Bytes → Option Bytes) (marshal : List (Bytes × Bytes) → Bytes) where
  -- The lines of a host in the batches of the day and the hour, in order.
  unfoldable pub handed_on : Bytes → Bytes → Bytes → List Batch → Bytes
  handed_on host date name [] = []
  handed_on host date name (b ∷ bs) =
      here (b.clock host) date name (lines_for parse_url marshal host b.params)
      ++ handed_on host date name bs

  -- No batch of the list panics or has a request with no host.
  abbrev pub HaveHosts : List Batch → Type 0
  HaveHosts [] = Unit
  HaveHosts (b ∷ bs) =
      (m : List (Bytes × Bytes)) × (make_backup_list parse_url marshal b.params ≡ returns m)
      × IsNamed m
      × HaveHosts bs

  -- Where no call fails, nothing is in the way and every request has a host, the work function never
  -- panics, and each file of a host has what it had and then the host's lines of the batches that were
  -- handed on in the hour of the file, one batch behind the other.
  pub work-read :
      (bs : List Batch) (root : Root)
      → IsFree root
      → HaveHosts bs
      → (root' : Root) × (work no_faults parse_url marshal bs root ≡ returns root')
        × IsFree root'
        × ((host date name : Bytes)
            → read_file host date name root'
              ≡ read_file host date name root ++ handed_on host date name bs)
  unfolding work handed_on do_batch
  work-read [] root f h = (root, refl, f, λ host date name. sym (append-nil _))
  work-read (b ∷ bs) root f (m, e, n, h) =
      let (d, t) = make_backup_list-lines parse_url marshal b.params m e in
      let root' = save_backup_list no_faults b.clock m root in
      let (last, w, free, r) = work-read bs root' (save_list-IsFree b.clock m root n f) h in
      (
        last,
        rw e w,
        free,
        λ host date name.
            r host date name
            ∙ ap (λ x. x ++ handed_on host date name bs)
                (save_list-read b.clock m root host date name n d f
                  ∙ ap (λ x. read_file host date name root ++ here (b.clock host) date name x)
                      (t host))
            ∙ append_assoc (read_file host date name root) _ (handed_on host date name bs),
      )

  lines_for-append :
      (host : Bytes) (ps qs : List Param)
      → lines_for parse_url marshal host (ps ++ qs)
        ≡ lines_for parse_url marshal host ps ++ lines_for parse_url marshal host qs
  unfolding lines_for
  lines_for-append host [] qs = refl
  lines_for-append host (p ∷ ps) qs =
      ap (λ x. line_for parse_url marshal host p ++ x) (lines_for-append host ps qs)
      ∙ sym (
          append_assoc (line_for parse_url marshal host p) (lines_for parse_url marshal host ps)
            (lines_for parse_url marshal host qs))

  -- The parameters of the batches, one batch behind the other.
  abbrev pub all_params : List Batch → List Param
  all_params [] = []
  all_params (b ∷ bs) = b.params ++ all_params bs

  -- All batches are written on one day and in one hour of it, each host at a time of its own.
  abbrev pub IsHour : ℕ → List Batch → Type 0
  IsHour now [] = Unit
  IsHour now (b ∷ bs) =
      ((host : Bytes)
        → (date_utc (b.clock host) ≡ date_utc now)
          × (make_hour_name (b.clock host) ≡ make_hour_name now))
      × IsHour now bs

  handed_on-all_params :
      (now : ℕ) (bs : List Batch) (host : Bytes)
      → IsHour now bs
      → handed_on host (date_utc now) (make_hour_name now) bs
        ≡ lines_for parse_url marshal host (all_params bs)
  unfolding handed_on lines_for
  handed_on-all_params now [] host h = refl
  handed_on-all_params now (b ∷ bs) host (c, h) = ground (
    arith,
    (c host).0,
    (c host).1,
    eqb_iff (date_utc now) (date_utc now),
    eqb_iff (make_hour_name now) (make_hour_name now),
    handed_on-all_params now bs host h,
    lines_for-append host b.params (all_params bs),
  )

  HaveHosts-all_params :
      (bs : List Batch) → All (HasHostParam parse_url) (all_params bs) → HaveHosts bs
  unfolding make_backup_list
  HaveHosts-all_params [] h = tt
  HaveHosts-all_params (b ∷ bs) h =
      let (now, later) = All-append (HasHostParam parse_url) b.params (all_params bs) h in
      let (m, e, n) = backup_items-IsNamed parse_url marshal b.params [] now tt in
      (m, e, n, HaveHosts-all_params bs later)

  -- The events that SaveAsync of one log gets, in order.
  unfoldable pub save_events : (Values → Bytes) → List Event → Single → Single
  save_events to_json [] b = b
  save_events to_json (e ∷ es) b = save_events to_json es (save_single to_json e b).1

  -- The parameters of an event with the JSON of the parameters in `request_headers`.
  abbrev pub marked : (Values → Bytes) → List Event → List Param
  marked to_json [] = []
  marked to_json (e ∷ es) = values (mark to_json e).request_parameters ∷ marked to_json es

  given-save_events :
      (to_json : Values → Bytes) (es : List Event) (b : Single)
      → ((save_events to_json es b).given ≡ b.given ++ marked to_json es)
        × ((save_events to_json es b).files ≡ b.files)
  unfolding save_events save_single
  given-save_events to_json [] b = (sym (append-nil b.given), refl)
  given-save_events to_json (e ∷ es) b =
      let (g, f) = given-save_events to_json es (save_single to_json e b).1 in
      (
        g
            ∙ append_assoc b.given (values (mark to_json e).request_parameters ∷ [])
                (marked to_json es),
        f,
      )

  marked-HasHost :
      (to_json : Values → Bytes) (es : List Event)
      → All (λ (e : Event). HasHost parse_url e.request_parameters) es
      → All (HasHostParam parse_url) (marked to_json es)
  unfolding mark eqb codes
  marked-HasHost to_json [] h = tt
  marked-HasHost to_json (e ∷ es) ((host, p, n), hs) = (
    (
      host,
      ap parse_url (
            get-add_ne e.request_parameters (codes "request_headers") (codes "u")
              (to_json e.request_parameters) refl)
          ∙ p,
      n,
    ),
    marked-HasHost to_json es hs,
  )

  -- Where no call of the file system fails, nothing is in the way, the log was given nothing before, and
  -- the parameter `u` of every event that its SaveAsync gets is a URL with a host: however the batcher
  -- cuts what the log was given into batches, once it has handed them on in order, all on one UTC date
  -- and in one hour of it, the work function has not panicked, and the file of each host and of that
  -- hour has what it had and then one line for each event of the host, in the order of the events.
  pub save_events-work :
      (to_json : Values → Bytes) (es : List Event) (b : Single) (bs : List Batch) (now : ℕ)
      → b.given ≡ []
      → all_params bs ≡ (save_events to_json es b).given
      → IsHour now bs
      → IsFree b.files
      → All (λ (e : Event). HasHost parse_url e.request_parameters) es
      → (files : Root) × (work no_faults parse_url marshal bs (save_events to_json es b).files
          ≡ returns files)
        × ((host : Bytes)
            → read_file host (date_utc now) (make_hour_name now) files
              ≡ read_file host (date_utc now) (make_hour_name now) b.files
                ++ lines_for parse_url marshal host (marked to_json es))
  save_events-work to_json es b bs now empty handed h f hosts =
      let (g, same) = given-save_events to_json es b in
      let all : all_params bs ≡ marked to_json es =
        handed ∙ g ∙ ap (λ x. x ++ marked to_json es) empty in
      let n =
        HaveHosts-all_params bs
          (subst (All (HasHostParam parse_url)) (sym all) (marked-HasHost to_json es hosts)) in
      let (files, w, free, r) = work-read bs b.files f n in
      (
        files,
        ap (work no_faults parse_url marshal bs) same ∙ w,
        λ host.
            r host (date_utc now) (make_hour_name now)
            ∙ ap (λ x. read_file host (date_utc now) (make_hour_name now) b.files ++ x)
                (handed_on-all_params now bs host h ∙ ap (lines_for parse_url marshal host) all),
      )
