-- ===== src/Input/Tests.antt =====
-- Paths of logs, and the theorem at two of them.
use nblex.Base.{◌≡◌, refl, some}
use nblex.Input.{nblex_detect_log_format, format_nginx, format_json, strrchr, has_word}
use nblex.Text.{codes, str_eq, starts_with}

nginx_path : nblex_detect_log_format (some (codes "/var/log/Nginx/access.log")) ≡ format_nginx
unfolding nblex_detect_log_format strrchr has_word str_eq starts_with
nginx_path = refl

json_path : nblex_detect_log_format (some (codes "/var/log/nginx.d/app.JSON")) ≡ format_json
unfolding nblex_detect_log_format strrchr has_word str_eq starts_with
json_path = refl
