-- ===== src/SecurityHeaders.antt =====
-- backend/internal/middleware/security_middleware.go: the headers of every response.
use digital_square.Base.{String, ◌<>◌, Bool, List, [], ◌∷◌, if◌then◌else◌}

pub record Header : Type 0 where
  pub name : String
  pub value : String

abbrev header : String → String → Header
header name value = record { name = name; value = value }

abbrev content_security_policy : String
content_security_policy =
    "default-src 'self'; "
    <> ("script-src 'self'; "
        <> ("style-src 'self' 'unsafe-inline'; "
            <> ("img-src 'self' data: https:; "
                <> ("font-src 'self'; "
                    <> ("connect-src 'self' ws: wss:; " <> "frame-ancestors 'none';")))))

abbrev pub security_headers : List Header
security_headers =
    header "X-Content-Type-Options" "nosniff"
    ∷ header "X-Frame-Options" "DENY"
    ∷ header "X-XSS-Protection" "1; mode=block"
    ∷ header "Content-Security-Policy" content_security_policy
    ∷ header "Referrer-Policy" "strict-origin-when-cross-origin"
    ∷ header "Permissions-Policy" "camera=(), microphone=(), geolocation=(), payment=()"
    ∷ []

abbrev pub hsts_headers : Bool → List Header
hsts_headers is_production =
    if is_production
    then header "Strict-Transport-Security" "max-age=31536000; includeSubDomains; preload" ∷ []
    else []
