-- ===== src/Streams/Subscriptions.antt =====
-- The subscriptions of the stream client stay within the limit, and only an active symbol has depth.
use crypto_trading_system.Base.{
  Bool, List, Option, [], arith, length, list_beq_iff, list_eq, nat_eq, none, option_eq, refl, some,
  true, ℕ, ◌++◌, ◌+◌, ◌==◌, ◌∷◌, ◌≡◌, ◌≤◌,
}
use crypto_trading_system.Base.Dict.{add, discard, mem, mem-add, mem-discard}
use crypto_trading_system.Base.Text.{Text}
use crypto_trading_system.Models.Common.{normalize_symbol}
use crypto_trading_system.Streams.{
  Answer, StreamClient, add_back_if, add_depth_name, add_depth_symbol, add_name, add_symbol,
  at_name, for_symbol, remove_depth_name, remove_depth_symbol, remove_name, remove_symbol,
  stream_count,
}

length-discard : (k : Text) (s : List Text) → length (discard k s) ≤ length s
length-discard k [] = omega arith
length-discard k (j ∷ s) = ground (arith, length-discard k s)

length-discard-mem :
    (k : Text) (s : List Text) → mem k s ≡ true → length (discard k s) + 1 ≤ length s
length-discard-mem k [] h = absurd (cc)
length-discard-mem k (j ∷ s) h = ground (arith, length-discard k s, length-discard-mem k s)

length-append_one : (k : Text) (s : List Text) → length (s ++ k ∷ []) ≡ length s + 1
length-append_one k [] = omega arith
length-append_one k (j ∷ s) = omega (arith, length-append_one k s)

length-add : (k : Text) (s : List Text) → length (add k s) ≤ length s + 1
length-add k s = ground (arith, length-append_one k s)

-- A name that is added and taken out again leaves at most what was there.
discard_added : (k : Text) (s : List Text) → length (discard k (add k s)) ≤ length s
discard_added k s =
    let self : (k == k) ≡ true = (list_beq_iff k k).1 refl in
    ground (arith, length-discard-mem k (add k s), mem-add k k s, self, length-add k s)

-- A name that is taken out and added again leaves at most what was there.
add_discarded :
    (k : Text) (s : List Text) → mem k s ≡ true → length (add k (discard k s)) ≤ length s
add_discarded k s h = omega (arith, length-add k (discard k s), length-discard-mem k s h)

-- The limit, and the depth subscriptions of active symbols only.
pub record IsWithin (max_streams : ℕ) (c : StreamClient) : Type 0 where
  pub bounded : stream_count c ≤ max_streams
  pub active : (s : Text) → mem s c.depth_symbols ≡ true → mem s c.symbols ≡ true

add_name-IsWithin :
    (max_streams : ℕ) (name : Text) (sent : Bool) (c : StreamClient)
    → IsWithin max_streams c
    → IsWithin max_streams (add_name max_streams name sent c).0
unfolding add_name stream_count
add_name-IsWithin max_streams name sent c v = record {
  bounded = ground (arith, v.bounded, length-add name c.symbols, discard_added name c.symbols);
  active = λ s h. ground (
    arith,
    h,
    v.active s,
    mem-add name s c.symbols,
    mem-discard name s (add name c.symbols),
    list_beq_iff name s,
  );
}

remove_name-IsWithin :
    (max_streams : ℕ) (name : Text) (sent : Bool) (c : StreamClient)
    → IsWithin max_streams c
    → IsWithin max_streams (remove_name name sent c).0
unfolding remove_name stream_count add_back_if
remove_name-IsWithin max_streams name sent c v = record {
  bounded = ground (
    arith,
    v.bounded,
    length-discard name c.symbols,
    length-discard name c.depth_symbols,
    add_discarded name c.symbols,
    add_discarded name c.depth_symbols,
  );
  active = λ s h. ground (
    arith,
    h,
    v.active s,
    mem-discard name s c.symbols,
    mem-discard name s c.depth_symbols,
    mem-add name s (discard name c.symbols),
    mem-add name s (discard name c.depth_symbols),
    list_beq_iff name s,
  );
}

add_depth_name-IsWithin :
    (max_streams : ℕ) (name : Text) (sent : Bool) (c : StreamClient)
    → IsWithin max_streams c
    → IsWithin max_streams (add_depth_name max_streams name sent c).0
unfolding add_depth_name stream_count
add_depth_name-IsWithin max_streams name sent c v = record {
  bounded =
      ground
        (arith, v.bounded, length-add name c.depth_symbols, discard_added name c.depth_symbols);
  active = λ s h. ground (
    arith,
    h,
    v.active s,
    mem-add name s c.depth_symbols,
    mem-discard name s (add name c.depth_symbols),
    list_beq_iff name s,
  );
}

remove_depth_name-IsWithin :
    (max_streams : ℕ) (name : Text) (sent : Bool) (c : StreamClient)
    → IsWithin max_streams c
    → IsWithin max_streams (remove_depth_name name sent c).0
unfolding remove_depth_name stream_count
remove_depth_name-IsWithin max_streams name sent c v = record {
  bounded =
      ground
        (arith, v.bounded, length-discard name c.depth_symbols, add_discarded name c.depth_symbols);
  active = λ s h. ground (
    arith,
    h,
    v.active s,
    mem-discard name s c.depth_symbols,
    mem-add name s (discard name c.depth_symbols),
    list_beq_iff name s,
  );
}

at_name-IsWithin :
    (max_streams : ℕ) (w : Option Text) (f : Text → StreamClient × Answer) (c : StreamClient)
    → ((name : Text) → IsWithin max_streams (f name).0)
    → IsWithin max_streams c
    → IsWithin max_streams (at_name w f c).0
unfolding at_name
at_name-IsWithin max_streams none f c h v = v
at_name-IsWithin max_streams (some name) f c h v = h name

for_symbol-IsWithin :
    (max_streams : ℕ) (symbol : Text) (f : Text → StreamClient × Answer) (c : StreamClient)
    → ((name : Text) → IsWithin max_streams (f name).0)
    → IsWithin max_streams c
    → IsWithin max_streams (for_symbol symbol f c).0
unfolding for_symbol
for_symbol-IsWithin max_streams symbol f c h v =
    at_name-IsWithin max_streams (normalize_symbol symbol) f c h v

-- A request for a subscription, and whether its control message was sent.
pub data Request : Type 0 where
  add_request remove_request add_depth_request remove_depth_request : Text → Bool → Request

pub serve : ℕ → Request → StreamClient → StreamClient
serve max_streams (add_request symbol sent) c = (add_symbol max_streams symbol sent c).0
serve max_streams (remove_request symbol sent) c = (remove_symbol symbol sent c).0
serve max_streams (add_depth_request symbol sent) c = (add_depth_symbol max_streams symbol sent c).0
serve max_streams (remove_depth_request symbol sent) c = (remove_depth_symbol symbol sent c).0

serve-IsWithin :
    (max_streams : ℕ) (r : Request) (c : StreamClient)
    → IsWithin max_streams c
    → IsWithin max_streams (serve max_streams r c)
unfolding serve add_symbol remove_symbol add_depth_symbol remove_depth_symbol
serve-IsWithin m (add_request symbol sent) c v =
    for_symbol-IsWithin m symbol (λ name. add_name m name sent c) c
      (λ name. add_name-IsWithin m name sent c v) v
serve-IsWithin m (remove_request symbol sent) c v =
    for_symbol-IsWithin m symbol (λ name. remove_name name sent c) c
      (λ name. remove_name-IsWithin m name sent c v) v
serve-IsWithin m (add_depth_request symbol sent) c v =
    for_symbol-IsWithin m symbol (λ name. add_depth_name m name sent c) c
      (λ name. add_depth_name-IsWithin m name sent c v) v
serve-IsWithin m (remove_depth_request symbol sent) c v =
    for_symbol-IsWithin m symbol (λ name. remove_depth_name name sent c) c
      (λ name. remove_depth_name-IsWithin m name sent c v) v

pub serve_each : ℕ → List Request → StreamClient → StreamClient
serve_each max_streams [] c = c
serve_each max_streams (r ∷ rs) c = serve_each max_streams rs (serve max_streams r c)

-- Whatever requests are served one after the other, each to its end before the next begins, and
-- whichever of their control messages fail, the subscriptions never exceed the limit and only an active
-- symbol has a depth subscription.
pub serve_each-IsWithin :
    (max_streams : ℕ) (rs : List Request) (c : StreamClient)
    → IsWithin max_streams c
    → IsWithin max_streams (serve_each max_streams rs c)
unfolding serve_each
serve_each-IsWithin max_streams [] c v = v
serve_each-IsWithin max_streams (r ∷ rs) c v =
    serve_each-IsWithin max_streams rs (serve max_streams r c) (serve-IsWithin max_streams r c v)
