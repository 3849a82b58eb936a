-- ===== src/It/Archived.antt =====
-- The sender on the lines of a log that SaveAsync was given.
use front_basicrum_go.Base.{
  Bytes, List, [], ◌∷◌, ◌++◌, Option, none, some, ◌≡◌, ◌≢◌, ◌∙◌, append_assoc, append-nil, refl,
  sym, ap, arith, codes, eqb_iff, ◌⊎◌, inl, inr, Option-cases,
}
use mathlib.Core.Path.{subst}
use front_basicrum_go.Base.Assoc.{lookup, lookup-insert, Distinct, insert-Distinct}
use front_basicrum_go.Base.Outcome.{panics, Outcome-cases}
use front_basicrum_go.Values.{Values, get, add}
use front_basicrum_go.Types.{Event}
use front_basicrum_go.Backup.Lines.{make_value, flatten_map}
use front_basicrum_go.Backup.Service.{mark}
use front_basicrum_go.It.{
  Error, unable_to_parse_json, unable_to_scan_file, File, Result, failed, scan_lines, scan_end,
  scan_files, finished, fatal, send_values, make_url_values, scan_file, read_files, make_user_agent,
  make_country_code, new_post, make_post, panicked, Post, Response, send, request_headers, ok,
}
use front_basicrum_go.It.Resending.{get-flatten_map}

-- The text that is added under a new name is the value of the name.
get-add : (v : Values) (k x : Bytes) → lookup k v ≡ none → get (add v k x) k ≡ x
unfolding get add
get-add v k x h = ground (arith, lookup-insert k k (x ∷ []) v, eqb_iff k k)

-- What a call adds to the values that it was given.
Extends : List Values → Result (List Values) → Type 0
Extends result r = ((e : Error) × (r ≡ failed e)) ⊎ ((t : List Values) × (r ≡ ok (result ++ t)))

module _ (scan : Bytes → List Bytes × Option Bytes)
    (parse_map : Bytes → Option (List (Bytes × Bytes))) where
  scan_lines-Extends :
      (lines : List Bytes) (result : List Values)
      → Extends result (scan_lines scan parse_map lines result)
  unfolding scan_lines Extends
  scan_lines-Extends [] result = inr ([], ap ok (sym (append-nil result)))
  scan_lines-Extends (line ∷ lines) result = elim (Option-cases (parse_map line)) [
    | inl e ↦ inl (unable_to_parse_json line, rw (e, scan_lines) refl)
    | inr (m, e) ↦ elim (scan_lines-Extends lines (result ++ make_url_values m ∷ [])) [
      | inl (x, p) ↦ inl (x, rw (e, scan_lines) p)
      | inr (t, p) ↦ inr (
        make_url_values m ∷ t,
        rw (e, scan_lines) (p ∙ ap ok (append_assoc result (make_url_values m ∷ []) t)),
      )
    ]
  ]

  joined :
      (result : List Values) (r : Result (List Values)) (rest : List Values → Result (List Values))
      → ((items : List Values) → Extends (result ++ items) (rest (result ++ items)))
      → Extends result (elim r [ failed e ↦ failed e | ok items ↦ rest (result ++ items) ])
  unfolding Extends
  joined result (failed e) rest h = inl (e, refl)
  joined result (ok items) rest h = elim (h items) [
    | inl (x, q) ↦ inl (x, q)
    | inr (t, q) ↦ inr (items ++ t, q ∙ ap ok (append_assoc result items t))
  ]

  scan_files-Extends :
      (files : List File) (result : List Values)
      → Extends result (scan_files scan parse_map files result)
  unfolding scan_files Extends
  scan_files-Extends [] result = inr ([], ap ok (sym (append-nil result)))
  scan_files-Extends (f ∷ fs) result =
      joined result (scan_file scan parse_map f) (scan_files scan parse_map fs)
        (λ items. scan_files-Extends fs (result ++ items))

  end-Extends :
      (name : Bytes) (result : List Values) (e : Option Bytes) (r : Result (List Values))
      → Extends result r
      → Extends result (scan_end scan parse_map name e r)
  unfolding Extends scan_end
  end-Extends name result e (failed x) h = inl (x, refl)
  end-Extends name result none (ok items) h = h
  end-Extends name result (some x) (ok items) h = inl (unable_to_scan_file name, refl)

  followed :
      (result : List Values) (r : Result (List Values)) (rest : List Values → Result (List Values))
      → Extends result r
      → ((items : List Values) → Extends items (rest items))
      → Extends result (elim r [ failed e ↦ failed e | ok items ↦ rest items ])
  unfolding Extends
  followed result (failed e) rest h k = inl (e, refl)
  followed result (ok items) rest (inl (x, p)) k = absurd (ground arith)
  followed result (ok items) rest (inr (t, p)) k = elim (k items) [
    | inl (x, q) ↦ inl (x, q)
    | inr (u, q) ↦
        let same : items ≡ result ++ t = ground arith in
        inr (t ++ u, q ∙ ap (λ i. ok (i ++ u)) same ∙ ap ok (append_assoc result t u))
  ]

  -- Where the first file can be opened and its first line is JSON, what is read fails, or starts with the
  -- parameters of the line.
  first_line :
      (name text line : Bytes) (lines : List Bytes) (e : Option Bytes) (m : List (Bytes × Bytes))
      (rest : List File)
      → scan text ≡ (line ∷ lines, e)
      → parse_map line ≡ some m
      → Extends
          (make_url_values m ∷ [])
          (read_files scan parse_map (some ((name, some text) ∷ rest)))
  unfolding read_files scan_files scan_file
  first_line name text line lines e m rest s p =
      let read : scan_lines scan parse_map (line ∷ lines) []
          ≡ scan_lines scan parse_map lines (make_url_values m ∷ []) =
        rw (p, scan_lines) refl in
      let file : scan_file scan parse_map (name, some text)
          ≡ scan_end scan parse_map name e
              (scan_lines scan parse_map lines (make_url_values m ∷ [])) =
        ap (λ r. scan_end scan parse_map name r.1 (scan_lines scan parse_map r.0 [])) s
        ∙ ap (scan_end scan parse_map name e) read in
      followed (make_url_values m ∷ []) (scan_file scan parse_map (name, some text))
        (scan_files scan parse_map rest)
        (subst (Extends (make_url_values m ∷ [])) (sym file) (
          end-Extends name (make_url_values m ∷ []) e
            (scan_lines scan parse_map lines (make_url_values m ∷ []))
            (scan_lines-Extends lines (make_url_values m ∷ []))))
        (λ items. scan_files-Extends rest items)

add-Distinct : (v : Values) (k x : Bytes) → Distinct v → Distinct (add v k x)
unfolding add
add-Distinct v k x d = insert-Distinct k _ v d

make_post-panics :
    (parse_header : Bytes → Option Values) (params headers : Values)
    → lookup (codes "Cf-Ipcountry") headers ≡ none
    → make_post parse_header params headers ≡ panics
unfolding make_post make_country_code
make_post-panics parse_header params headers h = elim (Outcome-cases (make_user_agent headers)) [
  | inl (agent, e) ↦ ground arith
  | inr e ↦ ground arith
]

module _ (scan : Bytes → List Bytes × Option Bytes)
    (parse_map : Bytes → Option (List (Bytes × Bytes))) (marshal : List (Bytes × Bytes) → Bytes)
    (parse_header : Bytes → Option Values) (to_json : Values → Bytes)
    (answer : List Post → Post → Response) where
  -- The values of an event that SaveAsync marked are read as headers.
  new_post-mark :
      (e : Event)
      → parse_header (to_json e.request_parameters) ≡ some e.request_parameters
      → Distinct e.request_parameters
      → lookup request_headers e.request_parameters ≡ none
      → lookup (codes "Cf-Ipcountry") e.request_parameters ≡ none
      → new_post parse_header (make_url_values (flatten_map (mark to_json e).request_parameters))
        ≡ panics
  unfolding new_post mark
  new_post-mark e law d fresh no_country =
      let v = e.request_parameters in
      let v' = add v request_headers (to_json v) in
      let read : get (make_url_values (flatten_map v')) request_headers ≡ to_json v =
        (get-flatten_map v' request_headers (add-Distinct v request_headers (to_json v) d)).0
        ∙ get-add v request_headers (to_json v) fresh in
      let headers : parse_header (get (make_url_values (flatten_map v')) request_headers) ≡ some v =
        ap parse_header read ∙ law in
      ground (
        arith,
        headers,
        make_post-panics parse_header (make_url_values (flatten_map v')) v no_country,
      )

  send-panicked :
      (v : Values) (t : List Values)
      → new_post parse_header v ≡ panics
      → send parse_header answer (ok (v ∷ t)) ≡ (panicked, [])
  unfolding send send_values
  send-panicked v t h = ground arith

  -- A log whose first line is that of an event as SaveAsync gives it to the log, where the request had
  -- no parameter Cf-Ipcountry and no parameter request_headers, cannot be sent again: the sender makes
  -- no request and ends with an error or a panic, whatever stands behind the line. This is where
  -- json.Unmarshal reads back what json.Marshal wrote.
  pub send-mark :
      (e : Event) (name text : Bytes) (lines : List Bytes) (x : Option Bytes) (rest : List File)
      → parse_map (make_value marshal (mark to_json e).request_parameters)
        ≡ some (flatten_map (mark to_json e).request_parameters)
      → parse_header (to_json e.request_parameters) ≡ some e.request_parameters
      → Distinct e.request_parameters
      → lookup request_headers e.request_parameters ≡ none
      → lookup (codes "Cf-Ipcountry") e.request_parameters ≡ none
      → scan text ≡ (make_value marshal (mark to_json e).request_parameters ∷ lines, x)
      → ((send parse_header answer (read_files scan parse_map (some ((name, some text) ∷ rest)))).1
          ≡ [])
        × ((send parse_header answer
              (read_files scan parse_map (some ((name, some text) ∷ rest)))).0
            ≢ finished)
  unfolding send send_values make_value Extends
  send-mark e name text lines x rest maps law d fresh no_country s =
      let v = (mark to_json e).request_parameters in
      let bad = new_post-mark e law d fresh no_country in
      elim (first_line scan parse_map name text (marshal (flatten_map v)) lines x (flatten_map v)
        rest s maps) [
          | inl (y, p) ↦
              let q : send parse_header answer
                    (read_files scan parse_map (some ((name, some text) ∷ rest)))
                  ≡ (fatal y, []) =
                ap (send parse_header answer) p in
              (ap (λ r. r.1) q, λ h. cc (ap (λ r. r.0) q))
          | inr (t, p) ↦
              let q =
                ap (send parse_header answer) p
                ∙ send-panicked (make_url_values (flatten_map v)) t bad in
              (ap (λ r. r.1) q, λ h. cc (ap (λ r. r.0) q))
        ]
