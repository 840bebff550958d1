-- ===== src/Wire/Paging/Taken.antt =====
-- What an accepted page has passed, and what it does to the walk.
use peer_application_runtime.Base.{
  ℕ, ◌+◌, ◌≤◌, List, Bool, true, false, not, ◌||◌, Option, ◌≡◌, sym, subst, suc, ltb→le, ap, ◌∙◌,
  arith, ltb, length, ◌==◌,
}
use peer_application_runtime.Base.{||-left, ||-right, not-false}
use peer_application_runtime.Base.Bytes.{Bytes, bytes_eq, distinct}
use peer_application_runtime.Wire.Error.{Result, ok, ◌>>=◌, on_bind, on_refuse, ok-injective}
use peer_application_runtime.Wire.Value.{Value, Values, len_values, Fields, nil, cons}
use peer_application_runtime.Wire.Encode.{encode, default_max_bytes, default_max_nodes}
use peer_application_runtime.Wire.Paging.{
  Walk, entry, as_rows, as_dict, as_bytes, as_cursor, as_list, as_bool, as_uint, same_cursor,
  is_seen, ids, any_held, take_page, check_scope, check_cursor, check_budget, check_ids, check_page,
}

pub length-as_rows :
    (vs : Values) (rows : List (Bytes × Value)) → as_rows vs ≡ ok rows → length rows ≡ len_values vs
unfolding as_rows
length-as_rows nil rows e = ap length (sym (ok-injective e))
length-as_rows (cons row vs) rows e0 = on_bind (as_dict row) e0 (λ fs _ e1.
    on_bind (entry 0 fs) e1 (λ v _ e2. on_bind (as_bytes v) e2 (λ id _ e3.
      on_bind (as_rows vs) e3
        (λ rest more e. sym (ap length (ok-injective e)) ∙ ap suc (length-as_rows vs rest more)))))

-- The body of a page, and its rows, read without any check.
unfoldable pub body_of : Value → Result Fields
body_of page = do fs ← as_dict page; body ← entry 4 fs; as_dict body

unfoldable pub rows_of : Value → Result (List (Bytes × Value))
rows_of page = do body ← body_of page; v ← entry 2 body; vs ← as_list v; as_rows vs

check_scope_ok :
    (page : Value) (w : Walk) (body : Fields)
    → check_scope page w ≡ ok body
    → body_of page ≡ ok body
unfolding check_scope body_of
check_scope_ok page w body e0 = on_bind (as_dict page) e0 (λ fs d e1.
    on_bind (entry 1 fs) e1 (λ kv _ e2. on_bind (as_uint kv) e2 (λ kind _ e3.
      on_refuse (not (kind == 20)) _ e3 (λ _ e4. on_bind (entry 3 fs) e4 (λ sv _ e5.
        on_bind (as_bytes sv) e5
          (λ sp _ e6. on_refuse (not (bytes_eq sp w.space)) _ e6 (λ _ e. rw d e)))))))

pub record Taken (page : Value) (requested : Option Bytes) (w w' : Walk) : Type 0 where
  pub rows : List (Bytes × Value)
  pub read : rows_of page ≡ ok rows
  pub next : Option Bytes
  pub done : Bool
  pub size : ℕ
  pub encoded : List ℕ
  pub result : w' ≡ take_page rows next done size w
  pub expected : same_cursor requested w.cursor ≡ true
  pub unseen : is_seen next w.seen_cursors ≡ false
  pub pages : w.pages + 1 ≤ w.max_pages
  pub items : length w.items + length rows ≤ w.max_items
  pub written : encode default_max_bytes default_max_nodes page ≡ ok encoded
  pub measured : size ≡ 4 + length encoded
  pub bytes : w.bytes + size ≤ w.max_bytes
  pub apart : distinct (ids rows) ≡ true
  pub fresh : any_held (ids w.items) (ids rows) ≡ false

record Budgeted (page : Value) (n size : ℕ) (w : Walk) : Type 0 where
  encoded : List ℕ
  pages : w.pages + 1 ≤ w.max_pages
  items : length w.items + n ≤ w.max_items
  written : encode default_max_bytes default_max_nodes page ≡ ok encoded
  measured : size ≡ 4 + length encoded
  bytes : w.bytes + size ≤ w.max_bytes

check_budget_ok :
    (page : Value) (vs : Values) (w : Walk) (size : ℕ)
    → check_budget page vs w ≡ ok size
    → Budgeted page (len_values vs) size w
unfolding check_budget
check_budget_ok page vs w size e0 =
    on_refuse (ltb w.max_pages (w.pages + 1) || ltb w.max_items (length w.items + len_values vs)) _
      e0
      (λ room e1.
        on_bind (encode default_max_bytes default_max_nodes page) e1 (λ encoded written e2.
          on_refuse (ltb w.max_bytes (w.bytes + (4 + length encoded))) _ e2 (λ fits e.
            let same : 4 + length encoded ≡ size = ok-injective e in
            record {
              encoded = encoded;
              pages = ltb→le _ _ (||-left _ _ room);
              items = ltb→le _ _ (||-right _ _ room);
              written = written;
              measured = sym same;
              bytes = omega (arith, same, ltb→le _ _ fits);
            })))

check_cursor_ok :
    (body : Fields) (requested : Option Bytes) (w : Walk) (next : Option Bytes)
    → check_cursor body requested w ≡ ok next
    → (same_cursor requested w.cursor ≡ true) × (is_seen next w.seen_cursors ≡ false)
unfolding check_cursor
check_cursor_ok body requested w next e0 = on_bind (entry 0 body) e0 (λ tv _ e1.
    on_bind (as_bytes tv) e1 (λ t _ e2. on_refuse (not (bytes_eq t w.token)) _ e2 (λ _ e3.
      on_refuse (not (same_cursor requested w.cursor)) _ e3 (λ same e4.
        on_bind (entry 1 body) e4 (λ nv _ e5. on_bind (as_cursor nv) e5 (λ n _ e6.
          on_refuse (is_seen n w.seen_cursors) _ e6 (λ seen e. (
            not-false _ same,
            ap (λ m. is_seen m w.seen_cursors) (sym (ok-injective e)) ∙ seen,
          ))))))))

check_ids_ok :
    (vs : Values) (w : Walk) (rows : List (Bytes × Value))
    → check_ids vs w ≡ ok rows
    → (as_rows vs ≡ ok rows)
      × (length rows ≡ len_values vs)
      × (distinct (ids rows) ≡ true)
      × (any_held (ids w.items) (ids rows) ≡ false)
unfolding check_ids
check_ids_ok vs w rows e0 = on_bind (as_rows vs) e0 (λ r read e1.
    on_refuse (not (distinct (ids r)) || any_held (ids w.items) (ids r)) _ e1 (λ clear e.
      subst
        (λ q.
          (as_rows vs ≡ ok q)
          × (length q ≡ len_values vs)
          × (distinct (ids q) ≡ true)
          × (any_held (ids w.items) (ids q) ≡ false))
        (ok-injective e)
        (read, length-as_rows vs r read, not-false _ (||-left _ _ clear), ||-right _ _ clear)))

pub check_page_ok :
    (page : Value) (requested : Option Bytes) (w w' : Walk)
    → check_page page requested w ≡ ok w'
    → Taken page requested w w'
unfolding check_page
check_page_ok page requested w w' e0 = on_bind (check_scope page w) e0 (λ body scope e1.
    on_bind (check_cursor body requested w) e1 (λ next c e2.
      on_bind (entry 2 body) e2 (λ rv third e3. on_bind (as_list rv) e3 (λ vs values e4.
        on_bind (check_budget page vs w) e4 (λ size b e5. on_bind (check_ids vs w) e5 (λ rows i e6.
          on_bind (entry 3 body) e6 (λ dv _ e7. on_bind (as_bool dv) e7 (λ done _ e.
            let (same, unseen) = check_cursor_ok body requested w next c in
            let (listed, len, apart, fresh) = check_ids_ok vs w rows i in
            let q = check_budget_ok page vs w size b in
            record {
              rows = rows;
              read = unfold rows_of in rw (check_scope_ok page w body scope, third, values) listed;
              next = next;
              done = done;
              size = size;
              encoded = q.encoded;
              result = sym (ok-injective e);
              expected = same;
              unseen = unseen;
              pages = q.pages;
              items = omega (arith, len, q.items);
              written = q.written;
              measured = q.measured;
              bytes = q.bytes;
              apart = apart;
              fresh = fresh;
            }))))))))
