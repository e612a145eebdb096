-- ===== src/Middleware/Security.antt =====
-- pkg/server/middleware/security.go.
use goupter.Prelude.{append, String, Bool, true, false, not, List, [], ◌∷◌, ◌++◌, if◌then◌else◌}
use goupter.Prelude.Int.{ℤ, pos, ltb_ℤ}
use goupter.Middleware.Gin.{GinCall, header, abort_json, next}
use goupter.Middleware.Auth.{contains}
use goupter.Middleware.Cors.{header_if, not_empty}

pub record SecurityConfig : Type 0 where
  pub content_type_nosniff : Bool
  pub frame_options : String
  pub xss_protection : String
  pub hsts_max_age : ℤ
  pub hsts_include_subdomains : Bool
  pub hsts_preload : Bool
  pub content_security_policy : String
  pub referrer_policy : String
  pub cross_origin_opener_policy : String
  pub cross_origin_resource_policy : String
  pub custom_headers : List (String × String)

unfoldable pub default_security_config : SecurityConfig
default_security_config = record {
  content_type_nosniff = true;
  frame_options = "DENY";
  xss_protection = "1; mode=block";
  hsts_max_age = pos 31536000;
  hsts_include_subdomains = true;
  hsts_preload = false;
  content_security_policy = "";
  referrer_policy = "strict-origin-when-cross-origin";
  cross_origin_opener_policy = "same-origin";
  cross_origin_resource_policy = "same-origin";
  custom_headers = [];
}

-- `format_int` is `strconv.Itoa`.
unfoldable pub hsts : (ℤ → String) → SecurityConfig → String
hsts format_int cfg = append "max-age=" (
    append (format_int cfg.hsts_max_age) (
      append (if cfg.hsts_include_subdomains then "; includeSubDomains" else "")
        (if cfg.hsts_preload then "; preload" else "")))

module _ {I : Type 0} where
  -- The loop over the custom headers, and `Next`.
  unfoldable pub custom_calls : List (String × String) → List (GinCall I)
  custom_calls [] = next ∷ []
  custom_calls ((key, value) ∷ headers) = header key value ∷ custom_calls headers

  unfoldable pub security_with_config : (ℤ → String) → SecurityConfig → List (GinCall I)
  unfolding header_if not_empty hsts custom_calls
  security_with_config format_int cfg =
      header_if cfg.content_type_nosniff "X-Content-Type-Options" "nosniff"
      ++ (header_if (not_empty cfg.frame_options) "X-Frame-Options" cfg.frame_options
          ++ (header_if (not_empty cfg.xss_protection) "X-XSS-Protection" cfg.xss_protection
              ++ (header_if (ltb_ℤ (pos 0) cfg.hsts_max_age) "Strict-Transport-Security"
                    (hsts format_int cfg)
                  ++ (header_if (not_empty cfg.content_security_policy) "Content-Security-Policy"
                        cfg.content_security_policy
                      ++ (header_if (not_empty cfg.referrer_policy) "Referrer-Policy"
                            cfg.referrer_policy
                          ++ (header_if (not_empty cfg.cross_origin_opener_policy)
                                "Cross-Origin-Opener-Policy" cfg.cross_origin_opener_policy
                              ++ (header_if (not_empty cfg.cross_origin_resource_policy)
                                    "Cross-Origin-Resource-Policy" cfg.cross_origin_resource_policy
                                  ++ custom_calls cfg.custom_headers)))))))

  unfoldable pub ip_whitelist : List String → String → List (GinCall I)
  unfolding contains
  ip_whitelist allowed client_ip =
      if not (contains client_ip allowed)
      then abort_json (pos 403) (pos 403) "IP not allowed" ∷ []
      else next ∷ []

  unfoldable pub ip_blacklist : List String → String → List (GinCall I)
  unfolding contains
  ip_blacklist blocked client_ip =
      if contains client_ip blocked
      then abort_json (pos 403) (pos 403) "IP blocked" ∷ []
      else next ∷ []
