-- ===== src/Schema/Rules.antt =====
-- The rules on the properties of a Schema.org object (internal/parser/schema_rules.go), in the source's
-- order.
use seo_crawler_mcp.Prelude.{List, [], ◌∷◌, ◌++◌, Bytes, codes}

pub record SchemaRule : Type 0 where
  pub required : List Bytes
  pub recommended : List Bytes
  pub source : Bytes
  pub google_doc_url : Bytes

-- A type with rich results, by the last part of its document's URL; and one without.
unfoldable pub google : Bytes → List Bytes → List Bytes → SchemaRule
google page required recommended = record {
  required = required;
  recommended = recommended;
  source = codes "google_rich_results";
  google_doc_url =
      codes "https://developers.google.com/search/docs/appearance/structured-data/" ++ page;
}

unfoldable pub best_practice : List Bytes → SchemaRule
best_practice recommended = record {
  required = [];
  recommended = recommended;
  source = codes "schema_org_best_practice";
  google_doc_url = [];
}

unfoldable pub schema_rules : List (Bytes × SchemaRule)
schema_rules =
    (
      codes "Article",
      google (codes "article")
          (codes "headline" ∷ codes "author" ∷ codes "datePublished" ∷ codes "image" ∷ [])
          (codes "dateModified" ∷ codes "publisher" ∷ codes "mainEntityOfPage" ∷ []),
    )
    ∷ (
      codes "BlogPosting",
      google (codes "article")
          (codes "headline" ∷ codes "author" ∷ codes "datePublished" ∷ codes "image" ∷ [])
          (codes "dateModified" ∷ codes "publisher" ∷ codes "mainEntityOfPage" ∷ []),
    )
    ∷ (
      codes "NewsArticle",
      google (codes "article")
          (codes "headline" ∷ codes "author" ∷ codes "datePublished" ∷ codes "image" ∷ [])
          (codes "dateModified" ∷ codes "publisher" ∷ []),
    )
    ∷ (
      codes "Product",
      google (codes "product") (codes "name" ∷ []) (
          codes "image"
          ∷ codes "description"
          ∷ codes "offers"
          ∷ codes "brand"
          ∷ codes "sku"
          ∷ codes "review"
          ∷ codes "aggregateRating"
          ∷ []),
    )
    ∷ (
      codes "LocalBusiness",
      google (codes "local-business") (codes "name" ∷ codes "address" ∷ []) (
          codes "telephone"
          ∷ codes "openingHours"
          ∷ codes "geo"
          ∷ codes "image"
          ∷ codes "url"
          ∷ codes "priceRange"
          ∷ []),
    )
    ∷ (codes "BreadcrumbList", google (codes "breadcrumb") (codes "itemListElement" ∷ []) ([]))
    ∷ (codes "FAQPage", google (codes "faqpage") (codes "mainEntity" ∷ []) ([]))
    ∷ (
      codes "HowTo",
      google (codes "how-to") (codes "name" ∷ codes "step" ∷ [])
          (codes "description" ∷ codes "image" ∷ codes "totalTime" ∷ []),
    )
    ∷ (
      codes "Event",
      google (codes "event") (codes "name" ∷ codes "startDate" ∷ codes "location" ∷ []) (
          codes "description"
          ∷ codes "endDate"
          ∷ codes "image"
          ∷ codes "offers"
          ∷ codes "organizer"
          ∷ codes "performer"
          ∷ []),
    )
    ∷ (
      codes "Recipe",
      google (codes "recipe") (codes "name" ∷ codes "image" ∷ []) (
          codes "author"
          ∷ codes "description"
          ∷ codes "recipeIngredient"
          ∷ codes "recipeInstructions"
          ∷ codes "prepTime"
          ∷ codes "cookTime"
          ∷ codes "totalTime"
          ∷ codes "nutrition"
          ∷ []),
    )
    ∷ (
      codes "Review",
      google (codes "review-snippet")
          (codes "itemReviewed" ∷ codes "author" ∷ codes "reviewRating" ∷ [])
          (codes "datePublished" ∷ codes "reviewBody" ∷ []),
    )
    ∷ (
      codes "SoftwareApplication",
      google (codes "software-app") (codes "name" ∷ codes "offers" ∷ []) (
          codes "operatingSystem"
          ∷ codes "applicationCategory"
          ∷ codes "aggregateRating"
          ∷ codes "review"
          ∷ []),
    )
    ∷ (
      codes "VideoObject",
      google (codes "video") (codes "name" ∷ codes "thumbnailUrl" ∷ codes "uploadDate" ∷ [])
          (codes "description" ∷ codes "contentUrl" ∷ codes "duration" ∷ codes "embedUrl" ∷ []),
    )
    ∷ (
      codes "Offer",
      google (codes "product") (codes "price" ∷ codes "priceCurrency" ∷ [])
          (codes "availability" ∷ codes "url" ∷ codes "seller" ∷ codes "validFrom" ∷ []),
    )
    ∷ (
      codes "AggregateRating",
      google (codes "review-snippet") (codes "ratingValue" ∷ []) (
          codes "reviewCount"
          ∷ codes "ratingCount"
          ∷ codes "bestRating"
          ∷ codes "worstRating"
          ∷ []),
    )
    ∷ (
      codes "ItemList",
      google (codes "carousel") (codes "itemListElement" ∷ [])
          (codes "name" ∷ codes "numberOfItems" ∷ []),
    )
    ∷ (
      codes "Organization",
      best_practice (
          codes "name"
          ∷ codes "url"
          ∷ codes "logo"
          ∷ codes "description"
          ∷ codes "sameAs"
          ∷ codes "contactPoint"
          ∷ []),
    )
    ∷ (
      codes "Person",
      best_practice
          (codes "name" ∷ codes "url" ∷ codes "image" ∷ codes "jobTitle" ∷ codes "sameAs" ∷ []),
    )
    ∷ (
      codes "WebSite",
      best_practice (
          codes "name"
          ∷ codes "url"
          ∷ codes "description"
          ∷ codes "publisher"
          ∷ codes "potentialAction"
          ∷ []),
    )
    ∷ (
      codes "WebPage",
      best_practice (codes "name" ∷ codes "description" ∷ codes "url" ∷ codes "breadcrumb" ∷ []),
    )
    ∷ (
      codes "Service",
      best_practice (
          codes "name"
          ∷ codes "description"
          ∷ codes "provider"
          ∷ codes "serviceType"
          ∷ codes "areaServed"
          ∷ []),
    )
    ∷ (codes "ContactPage", best_practice (codes "name" ∷ codes "description" ∷ codes "url" ∷ []))
    ∷ (codes "AboutPage", best_practice (codes "name" ∷ codes "description" ∷ codes "url" ∷ []))
    ∷ (
      codes "CollectionPage",
      best_practice (codes "name" ∷ codes "description" ∷ codes "url" ∷ codes "mainEntity" ∷ []),
    )
    ∷ (
      codes "ImageObject",
      best_practice
          (codes "contentUrl" ∷ codes "name" ∷ codes "description" ∷ codes "caption" ∷ []),
    )
    ∷ []
