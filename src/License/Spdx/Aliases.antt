-- ===== src/License/Spdx/Aliases.antt =====
-- The tables of other spellings of intelligence/license/spdx.py.
use ip_risk_agent_v.Base.{List, [], ◌∷◌, Text, codes, Option, none, some}

-- `_DEPRECATED_REPLACEMENT`
unfoldable pub deprecated_replacement : List (Text × (Text × Option Text))
deprecated_replacement =
    (codes "agpl-1.0", (codes "AGPL-1.0-only", none))
    ∷ (codes "agpl-3.0", (codes "AGPL-3.0-only", none))
    ∷ (codes "gfdl-1.1", (codes "GFDL-1.1-only", none))
    ∷ (codes "gfdl-1.2", (codes "GFDL-1.2-only", none))
    ∷ (codes "gfdl-1.3", (codes "GFDL-1.3-only", none))
    ∷ (codes "gpl-1.0", (codes "GPL-1.0-only", none))
    ∷ (codes "gpl-2.0", (codes "GPL-2.0-only", none))
    ∷ (codes "gpl-3.0", (codes "GPL-3.0-only", none))
    ∷ (codes "lgpl-2.0", (codes "LGPL-2.0-only", none))
    ∷ (codes "lgpl-2.1", (codes "LGPL-2.1-only", none))
    ∷ (codes "lgpl-3.0", (codes "LGPL-3.0-only", none))
    ∷ (codes "gpl-1.0+", (codes "GPL-1.0-or-later", none))
    ∷ (codes "gpl-2.0+", (codes "GPL-2.0-or-later", none))
    ∷ (codes "gpl-3.0+", (codes "GPL-3.0-or-later", none))
    ∷ (codes "lgpl-2.0+", (codes "LGPL-2.0-or-later", none))
    ∷ (codes "lgpl-2.1+", (codes "LGPL-2.1-or-later", none))
    ∷ (codes "lgpl-3.0+", (codes "LGPL-3.0-or-later", none))
    ∷ (codes "gpl-2.0-with-gcc-exception", (codes "GPL-2.0-only", some (codes "GCC-exception-2.0")))
    ∷ (
      codes "gpl-2.0-with-autoconf-exception",
      (codes "GPL-2.0-only", some (codes "Autoconf-exception-2.0")),
    )
    ∷ (
      codes "gpl-2.0-with-bison-exception",
      (codes "GPL-2.0-only", some (codes "Bison-exception-2.2")),
    )
    ∷ (
      codes "gpl-2.0-with-classpath-exception",
      (codes "GPL-2.0-only", some (codes "Classpath-exception-2.0")),
    )
    ∷ (
      codes "gpl-2.0-with-font-exception",
      (codes "GPL-2.0-only", some (codes "Font-exception-2.0")),
    )
    ∷ (codes "gpl-3.0-with-gcc-exception", (codes "GPL-3.0-only", some (codes "GCC-exception-3.1")))
    ∷ (
      codes "gpl-3.0-with-autoconf-exception",
      (codes "GPL-3.0-only", some (codes "Autoconf-exception-3.0")),
    )
    ∷ (codes "ecos-2.0", (codes "GPL-2.0-or-later", some (codes "eCos-exception-2.0")))
    ∷ (codes "wxwindows", (codes "LGPL-2.0-or-later", some (codes "WxWindows-exception-3.1")))
    ∷ (codes "standardml-nj", (codes "SMLNJ", none))
    ∷ (codes "bzip2-1.0.5", (codes "bzip2-1.0.6", none))
    ∷ (codes "bsd-2-clause-netbsd", (codes "BSD-2-Clause", none))
    ∷ (codes "bsd-2-clause-freebsd", (codes "BSD-2-Clause-Views", none))
    ∷ []

-- `_ID_ALIASES`
unfoldable pub id_aliases : List (Text × Text)
id_aliases =
    (codes "apache 2.0", codes "Apache-2.0")
    ∷ (codes "apache2", codes "Apache-2.0")
    ∷ (codes "apache-2", codes "Apache-2.0")
    ∷ (codes "apachev2", codes "Apache-2.0")
    ∷ (codes "bsd", codes "BSD-3-Clause")
    ∷ (codes "bsd3", codes "BSD-3-Clause")
    ∷ (codes "bsd-3", codes "BSD-3-Clause")
    ∷ (codes "bsd2", codes "BSD-2-Clause")
    ∷ (codes "gpl2", codes "GPL-2.0-only")
    ∷ (codes "gpl-2", codes "GPL-2.0-only")
    ∷ (codes "gplv2", codes "GPL-2.0-only")
    ∷ (codes "gpl3", codes "GPL-3.0-only")
    ∷ (codes "gpl-3", codes "GPL-3.0-only")
    ∷ (codes "gplv3", codes "GPL-3.0-only")
    ∷ (codes "lgpl", codes "LGPL-2.1-only")
    ∷ (codes "lgplv3", codes "LGPL-3.0-only")
    ∷ (codes "agpl", codes "AGPL-3.0-only")
    ∷ (codes "agplv3", codes "AGPL-3.0-only")
    ∷ (codes "mpl2", codes "MPL-2.0")
    ∷ (codes "mpl-2", codes "MPL-2.0")
    ∷ (codes "the unlicense", codes "Unlicense")
    ∷ (codes "zlib/libpng", codes "Zlib")
    ∷ []
