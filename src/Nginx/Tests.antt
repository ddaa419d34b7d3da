-- ===== src/Nginx/Tests.antt =====
-- Lines of src/parsers/nginx_parser.c, and the round trip at one.
use nblex.Base.{Bool, true, ◌≡◌, refl, none, some, [], ◌∷◌}
use nblex.Nginx.{
  kept_fields, nblex_parse_nginx_line, fields_of, user_of, time_at, quoted_at, request_of,
  number_at, unless_dash,
}
use nblex.Nginx.Print.{Entry, print_entry, read_entry, nblex_parse_nginx_line-print_entry}
use nblex.Nginx.Quoted.{end, plain, backslash, quote, escaped_take, escaped_drop}
use nblex.Text.{Bytes, codes}
use nblex.Text.Scan.{span_take, span_drop}

entry : Entry
entry = record {
  addr = codes "::1";
  user = some (codes "al-b");
  time = codes "1/J +0";
  method = codes "GET";
  path = codes "/";
  protocol = codes "H2";
  status = codes "403";
  bytes = codes "14";
  referer = codes "-";
  agent = b'\\' ∷ b'"' ∷ b'\\' ∷ b'a' ∷ [];
  addr_word = (refl, (refl, (refl, tt)));
  user_name = (refl, (refl, (refl, (refl, (refl, tt)))));
  time_text = (refl, (refl, (refl, (refl, (refl, (refl, tt))))));
  method_text = (refl, (refl, (refl, tt)));
  path_text = (refl, tt);
  request_quotable = plain _ _ refl refl (
      plain _ _ refl refl (
        plain _ _ refl refl (
          plain _ _ refl refl (
            plain _ _ refl refl
              (plain _ _ refl refl (plain _ _ refl refl (plain _ _ refl refl end)))))));
  status_number = (refl, (refl, (refl, tt)));
  bytes_number = (refl, (refl, tt));
  referer_quotable = plain _ _ refl refl end;
  agent_quotable = quote _ (backslash _ _ refl (plain _ _ refl refl end));
}

abbrev any_text : Bytes → Bool
any_text s = true

nblex_parse_nginx_line-print_entry_example :
    nblex_parse_nginx_line any_text (print_entry entry (codes " x"))
    ≡ some (kept_fields any_text (read_entry entry))
nblex_parse_nginx_line-print_entry_example =
    nblex_parse_nginx_line-print_entry any_text entry (codes " x")

-- The name "--root" loses its dashes, and a request whose quote is never closed the rest of the line.
read_open_request :
    nblex_parse_nginx_line any_text (codes "h - --root [t] \"GET / 200 5")
    ≡ some (record {
      remote_addr = some (codes "h");
      remote_user = some (codes "root");
      time_local = some (codes "t");
      request = record { request = none; method = none; path = none; protocol = none };
      status = none;
      body_bytes_sent = none;
      http_referer = none;
      http_user_agent = none;
    })
unfolding nblex_parse_nginx_line fields_of user_of time_at quoted_at request_of number_at
    unless_dash span_take span_drop escaped_take escaped_drop
read_open_request = refl
